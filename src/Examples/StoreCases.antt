-- ===== src/Examples/StoreCases.antt =====
-- The theorems on packages/db/src/store.ts at a database with an owner and a viewer.
use cool_tunnel_server.Base.{◌≤◌, ◌<◌, ◌≡◌, refl, false, List, [], ◌∷◌, arith}
use cool_tunnel_server.Base.Texts.{Text, codes, text_eq, text_eq→eq}
use cool_tunnel_server.Base.Tables.{count}
use cool_tunnel_server.Base.Results.{throw, store_error, bootstrap_disabled}
use cool_tunnel_server.Store.Db.{AdminUser}
use cool_tunnel_server.Store.Users.{owner_count}
use cool_tunnel_server.Store.Bootstrap.{create_first_owner}
use cool_tunnel_server.Store.Invariant.{IsConsistent, is_active_with_id}
use cool_tunnel_server.Store.Frames.{Change, of_user}
use cool_tunnel_server.Store.History.{Call, updates, deletes, history, run_call}
use cool_tunnel_server.Store.Refinement.{run_call-Change, history-owner, history-IsConsistent}
use cool_tunnel_server.Store.BootstrapLaws.{bootstrap-closed}
use cool_tunnel_server.Examples.{
  the_owner, demotion, disabling, first_input, owner_row, viewer_row, viewer_session, host, env, db,
  owner_id, viewer_id,
}

-- The owner tries to step down and to delete itself, and disables the viewer.
abbrev calls : List Call
calls =
    updates env the_owner owner_id demotion
    ∷ deletes env the_owner owner_id
    ∷ updates env the_owner viewer_id disabling
    ∷ []

-- Of two rows with different texts in a column, one at most has a given text there.
count_two :
    (column : AdminUser → Text) (a b : AdminUser) (v : Text)
    → text_eq (column b) (column a) ≡ false
    → count (λ u. text_eq (column u) v) (a ∷ b ∷ []) ≤ 1
unfolding count
count_two column a b v h = ground (arith, text_eq→eq (column a) v)

pub db-IsConsistent : IsConsistent db
unfolding count text_eq
db-IsConsistent = record {
  unique_id = λ v. count_two (λ u. u.id) owner_row viewer_row v refl;
  unique_email = λ v. count_two (λ u. u.email) owner_row viewer_row v refl;
  unique_username = λ v. count_two (λ u. u.username) owner_row viewer_row v refl;
  sessions_active = λ v h. live v h;
}
  where
    live :
        (v : Text)
        → 0 < count (of_user v) (viewer_session ∷ [])
        → 0 < count (is_active_with_id v) (owner_row ∷ viewer_row ∷ [])
    live v h = ground arith

pub db-owner : 0 < owner_count db
unfolding owner_count count
db-owner = omega arith

history-owner_example : 0 < owner_count (history host calls db)
history-owner_example = history-owner host calls db db-IsConsistent db-owner

history-IsConsistent_example : IsConsistent (history host calls db)
history-IsConsistent_example = history-IsConsistent host calls db db-IsConsistent

run_call-Change_example :
    Change host db (run_call host (updates env the_owner viewer_id disabling) db)
run_call-Change_example = run_call-Change host (updates env the_owner viewer_id disabling) db

bootstrap-closed_example :
    create_first_owner host env first_input (codes "h") (history host calls db)
    ≡ (throw (store_error bootstrap_disabled 403), history host calls db)
bootstrap-closed_example =
    bootstrap-closed host calls db env first_input (codes "h") db-IsConsistent db-owner
