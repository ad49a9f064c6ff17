-- ===== src/Tests/Queries.antt =====
-- Loops of calls to the nodes.
use d8x_etherfi.Base.{◌≡◌, err}
use d8x_etherfi.Etherfi.Retry.{retry_query, decide_from, no_contract_code, retry_query-decide}
use d8x_etherfi.Etherfi.Retry
use d8x_etherfi.Etherfi.Queries.{query_share_tkn_supply}
use d8x_etherfi.Tests.World.{env, app, pool}

retry_query-decide_example :
    (retry_query pool (query_share_tkn_supply env app) 9 5).0
    ≡ decide_from
        (err no_contract_code)
        (Retry.outcomes pool (query_share_tkn_supply env app) 9 4 5)
retry_query-decide_example = retry_query-decide pool (query_share_tkn_supply env app) 9 5
