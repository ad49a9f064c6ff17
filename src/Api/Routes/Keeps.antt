-- ===== src/Api/Routes/Keeps.antt =====
-- What requests leave as it is.
use d8x_etherfi.Base.{
  ◌≡◌, sym, inl, inr, Bool, true, false, ◌&&◌, if◌then◌else◌, List, [], ◌∷◌, Option, none, some,
  Text, String, Option-cases,
}
use mathlib.Core.Path.{subst}
use text.Mathlib.Text.{◌==◌ as str_eq}
use d8x_etherfi.Etherfi.App.{App}
use d8x_etherfi.Etherfi.Queries.{Env}
use d8x_etherfi.Api.{Checked, on_get_balances, on_etherfi_apy}
use d8x_etherfi.Api.Serve.{get_balances, post_balances}
use d8x_etherfi.Api.Routes.{
  HttpRequest, Moment, Chi, Library, Handler, contracts, etherfi_apy, of_get_balances, of_balances,
  register_routes, handle, handle_all,
}
use d8x_etherfi.Api.Routes.Caches.{
  Keeps, Keeps-refl, Keeps-trans, latest-Keeps, on_balances-Keeps, stamped-Keeps, left_by,
  on_etherfi_apy-Keeps,
}

module _ {W Client Contract Caller Erc20 Manager B F R : Type 0}
    (env : Env W Client Contract Caller Erc20 Manager) (library : Library B F)
    (chi : Chi R (Handler env library)) where
  -- chi, as documented: a request goes to the handler that was registered last for its method and
  -- path, these being no patterns.
  pub record IsRouting : Type 0 where
    pub routes_new : (method path : String) → chi.route chi.new_router method path ≡ none
    pub routes_get :
        (r : R) (p : String) (h : Handler env library) (method path : String)
        → chi.route (chi.get r p h) method path
          ≡ (if str_eq method "GET" && str_eq path p then some h else chi.route r method path)
    pub routes_post :
        (r : R) (p : String) (h : Handler env library) (method path : String)
        → chi.route (chi.post r p h) method path
          ≡ (if str_eq method "POST" && str_eq path p then some h else chi.route r method path)

  -- The handler of a request, by its method and path.
  abbrev handler_of : String → String → Option (Handler env library)
  handler_of method path =
      if str_eq method "POST" && str_eq path "/balances"
      then some (of_balances env library)
      else if str_eq method "GET" && str_eq path "/get-balances"
      then some (of_get_balances env library)
      else if str_eq method "GET" && str_eq path "/etherfi-apy"
      then some (etherfi_apy env library)
      else if str_eq method "GET" && str_eq path "/contracts"
      then some (contracts env library)
      else none

  module _ (routing : IsRouting) where
    route-register_routes :
        (method path : String)
        → chi.route (register_routes env library chi chi.new_router) method path
          ≡ handler_of method path
    unfolding register_routes
    route-register_routes method path = rw (
      register_routes, routing.routes_post, routing.routes_get, routing.routes_get,
      routing.routes_get, routing.routes_new,
    )

    module _ (method path : String) (moment : Moment library.yield) (req : HttpRequest)
        (app : App F) (w : W) where
      -- What a request does with the handler that it goes to.
      abbrev dispatched : Option (Handler env library) → Option (Checked Text) × App F × W
      dispatched none = (some (chi.not_found method path), app, w)
      dispatched (some handler) = handler moment req app w

      KeepsWith : Option (Handler env library) → Type 0
      KeepsWith handler = Keeps app (dispatched handler).1

      either-KeepsWith :
          (test : Bool) (handler : Handler env library) (others : Option (Handler env library))
          → Keeps app (handler moment req app w).1
          → KeepsWith others
          → KeepsWith (if test then some handler else others)
      unfolding KeepsWith
      either-KeepsWith true handler others h k = h
      either-KeepsWith false handler others h k = k

      nowhere-KeepsWith : KeepsWith none
      unfolding KeepsWith
      nowhere-KeepsWith = Keeps-refl app

      etherfi_apy-Keeps : Keeps app (etherfi_apy env library moment req app w).1
      etherfi_apy-Keeps =
          let kept = on_etherfi_apy-Keeps library.yield app moment.now moment.endpoint in
          elim (Option-cases (on_etherfi_apy library.yield moment.now moment.endpoint app)) [
            | inl q ↦ rw (etherfi_apy, q) (stamped-Keeps library.yield app moment.now)
            | inr ((res, app'), q) ↦
                rw (etherfi_apy, q)
                  (subst (λ r. Keeps app (left_by library.yield app moment.now r)) q kept)
          ]

      handler_of-KeepsWith : KeepsWith (handler_of method path)
      unfolding get_balances post_balances on_get_balances
      handler_of-KeepsWith =
          either-KeepsWith (str_eq method "POST" && str_eq path "/balances")
            (of_balances env library) _
            (on_balances-Keeps app moment.db moment.delegates_error moment.transfers_error req.body)
            (either-KeepsWith (str_eq method "GET" && str_eq path "/get-balances")
              (of_get_balances env library) _
              (latest-Keeps app moment.db moment.delegates_error moment.transfers_error)
              (either-KeepsWith (str_eq method "GET" && str_eq path "/etherfi-apy")
                (etherfi_apy env library) _ etherfi_apy-Keeps
                (either-KeepsWith (str_eq method "GET" && str_eq path "/contracts")
                  (contracts env library) none (Keeps-refl app) nowhere-KeepsWith)))

      handle-Keeps :
          Keeps app
            (handle env library chi
              (register_routes env library chi chi.new_router)
              method
              path
              moment
              req
              app
              w).1
      unfolding handle KeepsWith
      handle-Keeps =
          subst (λ handler. Keeps app (dispatched handler).1)
            (sym (route-register_routes method path)) handler_of-KeepsWith

    -- Whatever requests come, one after the other, to a server over a router that goes by the last
    -- handler registered for a method and path: they change nothing of the app but its caches, and
    -- no block of the event sync that was set.
    pub handle_all-Keeps :
        (rs : List (String × String × Moment library.yield × HttpRequest)) (app : App F) (w : W)
        → Keeps app
            (handle_all env library chi (register_routes env library chi chi.new_router) rs app w).1
    unfolding handle_all
    handle_all-Keeps [] app w = Keeps-refl app
    handle_all-Keeps ((method, path, moment, req) ∷ rs) app w =
        let (res, app', w') =
          handle env library chi (register_routes env library chi chi.new_router) method path moment
            req app w in
        Keeps-trans (handle-Keeps method path moment req app w) (handle_all-Keeps rs app' w')
