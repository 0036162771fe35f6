-- ===== src/Ws/Session/Displaced.antt =====
-- A second login under one app id: `UserLogin` of ws/hubc.go asks for the disconnect of the client
-- that was logged in, and `appLogout` of ws/user.go then finds it no more.
use aqi.Prelude.{ℕ, ◌≡◌, String, some, comparable_string, comparable_nat}
use aqi.Ws.Types.{Hub}
use aqi.Ws.Session.{app_client, app_login}
use aqi.Ws.Session.Invariant.{IsConsistent, IsNew}
use aqi.Ws.Session.Keeps.{OwnConns}

module _ (app : String) (c u old : ℕ) (h : Hub) (v : IsConsistent h) (new : IsNew h c)
    (own : OwnConns h) (was : app_client h u app ≡ some old) where
  abbrev h' : Hub
  h' = app_login u app c h
