-- ===== src/Tests/Routing.antt =====
-- Requests to the server.
use d8x_etherfi.Base.{◌&&◌, if◌then◌else◌, List, [], ◌∷◌, Option, none, some, String, ok, err, refl}
use text.Mathlib.Text.{◌==◌ as str_eq}
use d8x_etherfi.Base.Int.{ℤ, pos}
use d8x_etherfi.Api.{rejected}
use d8x_etherfi.Api.Routes.{HttpRequest, Moment, Chi, Library, Handler, register_routes, handle_all}
use d8x_etherfi.Api.Routes.Caches.{Keeps}
use d8x_etherfi.Api.Routes.Keeps.{IsRouting, handle_all-Keeps}
use d8x_etherfi.Tests.World.{env, app, float, range}
use d8x_etherfi.Tests.Answers.{db, answers, in_turn}
use d8x_etherfi.Tests.Requests.{whole}
use d8x_etherfi.Tests.Served.{no_number, big, encode, encode_holders, post_request}

abbrev library : Library ℤ ℤ
library = record {
  combine = float;
  range = range;
  yield = whole;
  big = big;
  atoi = no_number;
  marshal_balances = encode;
  marshal_holders = encode_holders;
}

abbrev Routes : Type 0
Routes = List (String × String × Handler env library)

-- The handler that was registered last.
abbrev last_route : Routes → String → String → Option (Handler env library)
last_route [] method path = none
last_route ((m, p, h) ∷ routes) method path =
    if str_eq method m && str_eq path p then some h else last_route routes method path

abbrev chi : Chi Routes (Handler env library)
chi = record {
  new_router = [];
  get = λ routes path h. ("GET", path, h) ∷ routes;
  post = λ routes path h. ("POST", path, h) ∷ routes;
  route = last_route;
  not_found = λ method path. rejected 404 "404 page not found";
}

chi-IsRouting : IsRouting env library chi
chi-IsRouting = record {
  routes_new = λ method path. refl;
  routes_get = λ routes p h method path. refl;
  routes_post = λ routes p h method path. refl;
}

abbrev moment : Moment whole
moment = record {
  db = db;
  delegates_error = none;
  transfers_error = some "closed";
  answers = answers;
  select = in_turn;
  now = pos 50_000;
  endpoint = err "timeout";
}

abbrev asked : HttpRequest
asked = record { block_number = []; addresses = []; body = ok post_request }

abbrev requests : List (String × String × Moment whole × HttpRequest)
requests =
    ("GET", "/etherfi-apy", moment, asked)
    ∷ ("POST", "/balances", moment, asked)
    ∷ ("GET", "/get-balances", moment, asked)
    ∷ ("POST", "/contracts", moment, asked)
    ∷ []

handle_all-Keeps_example :
    Keeps app
      (handle_all env library chi (register_routes env library chi chi.new_router) requests app 5).1
handle_all-Keeps_example = handle_all-Keeps env library chi chi-IsRouting requests app 5
