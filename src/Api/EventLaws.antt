-- ===== src/Api/EventLaws.antt =====
-- Any sequence of events at the admin API does to the database what a history of store calls does.
use cool_tunnel_server.Store.Refinement.{history-owner, history-IsConsistent}
use cool_tunnel_server.Store.Invariant.{IsConsistent}
use cool_tunnel_server.Api.Events.{auth_write, Event}
use cool_tunnel_server.Store.Db.{Db}
use cool_tunnel_server.Api.Handlers.{Server}
use cool_tunnel_server.Base.{◌<◌, some, none, List, [], ◌∷◌}
use cool_tunnel_server.Store.Users.{owner_count}
use cool_tunnel_server.Store.Steps.{IsPreorder, Steps}
use cool_tunnel_server.Api.Reached.{Reached}
use cool_tunnel_server.Store.History.{Call, run_call, history}

-- The auth library's own handler stays within the relation, at each event of it.
unfoldable pub AuthWithin : (Db → Db → Type 0) → List Event → Type 0
AuthWithin R [] = Unit {0}
AuthWithin R (e ∷ es) =
    elim (auth_write e) [ none ↦ Unit {0} | some writes ↦ (db : Db) → R db (writes db) ]
    × AuthWithin R es

-- Consistency and an active owner are not lost.
unfoldable pub KeepsOwner : Db → Db → Type 0
KeepsOwner db after =
    IsConsistent db → 0 < owner_count db → IsConsistent after × (0 < owner_count after)

pub KeepsOwner-order : IsPreorder KeepsOwner
unfolding KeepsOwner
KeepsOwner-order = record {
  same = λ db h k. (h, k);
  trans = λ a b c f g h k. let (h', k') = f h k in g h' k';
}

module _ (server : Server) where
  abbrev Leads : Db → Db → Type 0
  Leads = Reached server.host

  pub run_call-KeepsOwner : (c : Call) (db : Db) → KeepsOwner db (run_call server.host c db)
  unfolding KeepsOwner history
  run_call-KeepsOwner c db h k =
      (history-IsConsistent server.host (c ∷ []) db h, history-owner server.host (c ∷ []) db h k)
