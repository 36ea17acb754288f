-- ===== src/Api/PasswordLaws.antt =====
-- apps/api/src/app.ts: what a successful `POST /api/me/password` has checked and done.
use cool_tunnel_server.Security.Validate.{validate_password}
use cool_tunnel_server.Api.Inputs.{safe_json, text_or_empty}
use cool_tunnel_server.Security.Json.{Fields}
use cool_tunnel_server.Base.Results.{ok, Result-cases}
use cool_tunnel_server.Api.Replies.{Reply, ok_reply}
use cool_tunnel_server.Api.Headers.{client_ip}
use cool_tunnel_server.Api.Handlers.{
  Server, Context, change_password_to, verifies, post_me_password,
}
use cool_tunnel_server.Store.Users.{get_own_password_hash}
use cool_tunnel_server.Store.Db.{Session, Db}
use cool_tunnel_server.Base.Texts.{Text, text_eq, codes}
use cool_tunnel_server.Base.{
  ◌≡◌, refl, inl, inr, Bool, true, false, not, ◌&&◌, Option, some, none, List, [], ◌∷◌, arith,
  Option-cases,
}
use cool_tunnel_server.Store.Monad.{
  ◌>>=◌, ◌>>◌, write, Host, audit_row, Env, read, return, fail, fail_if,
}
use cool_tunnel_server.Base.Tables.{find?, update_where, count, count-delete_self}
use cool_tunnel_server.Store.Accounts.{
  change_own_password, set_password, set_must_change, delete_other_sessions, is_credential_of,
}

find?-update_found {ℓ} :
    {A : Type ℓ} (p : A → Bool) (f : A → A) (xs : List A) (x : A)
    → ((a : A) → p a ≡ true → p (f a) ≡ true)
    → find? p xs ≡ some x
    → find? p (update_where p f xs) ≡ some (f x)
unfolding find? update_where
find?-update_found p f [] x h e = cc
find?-update_found p f (y ∷ ys) x h e = ground (arith, h y, find?-update_found p f ys x h)

-- The sessions of a user with another token than the one given.
abbrev pub other_session : Text → Text → Session → Bool
other_session user_id token s = text_eq s.user_id user_id && not (text_eq s.token token)

module _ (host : Host) where
  stored_hash :
      (env : Env) (id hash keep : Text) (ip : Option Text) (db : Db) (old : Text)
      → get_own_password_hash id db ≡ some old
      → get_own_password_hash id (change_own_password host env id hash keep ip db).1 ≡ some hash
  unfolding get_own_password_hash change_own_password set_password set_must_change
      delete_other_sessions audit_row ◌>>=◌ ◌>>◌ write
  stored_hash env id hash keep ip db old e =
      elim (Option-cases (find? (is_credential_of id) db.accounts)) [
        | inl missing ↦ ground (arith, missing)
        | inr (found, is_found) ↦
            let updated =
              find?-update_found (is_credential_of id)
                (λ a. record a { password = some hash; updated_at = env.ts }) db.accounts found
                (λ a h. h) is_found in
            ground (arith, updated, is_found)
      ]

  others_gone :
      (env : Env) (id hash keep : Text) (ip : Option Text) (db : Db)
      → count (other_session id keep) (change_own_password host env id hash keep ip db).1.sessions
        ≡ 0
  unfolding change_own_password set_password set_must_change delete_other_sessions audit_row ◌>>=◌
      ◌>>◌ write
  others_gone env id hash keep ip db = count-delete_self (other_session id keep) db.sessions

module _ (server : Server) (c : Context) where
  abbrev change : Text → Db → Db
  change new db =
      (change_own_password server.host c.env c.session.user_id (server.hash_password new)
        c.session.token (client_ip c.headers) db).1

  change_password_to-ok :
      (current new : Text) (db : Db) (r : Reply)
      → (change_password_to server c current new db).0 ≡ ok r
      → (validate_password new ≡ true)
        × (verifies server c current (get_own_password_hash c.session.user_id db) ≡ true)
        × (verifies server c new (get_own_password_hash c.session.user_id db) ≡ false)
        × ((change_password_to server c current new db).1 ≡ change new db)
  unfolding change_password_to ok_reply ◌>>=◌ ◌>>◌ return fail read write fail_if
      change_own_password
  change_password_to-ok current new db r e = ground arith

  verifies-some :
      (current new : Text) (hash : Option Text)
      → verifies server c current hash ≡ true
      → verifies server c new hash ≡ false
      → (old : Text) × (hash ≡ some old)
        × (server.verify_password current old ≡ true)
        × (server.verify_password new old ≡ false)
  verifies-some current new none e k = cc
  verifies-some current new (some []) e k = cc
  verifies-some current new (some (a ∷ s)) e k = (a ∷ s, refl, e, k)

  post_me_password-inputs :
      (db : Db) (r : Reply)
      → (post_me_password server c db).0 ≡ ok r
      → (body : Fields) × (current : Text) × (new : Text) × (safe_json c.body ≡ ok body)
        × (text_or_empty server.host.platform (codes "newPassword") body ≡ ok new)
        × (text_or_empty server.host.platform (codes "currentPassword") body ≡ ok current)
        × (post_me_password server c db ≡ change_password_to server c current new db)
  unfolding post_me_password ◌>>=◌ read
  post_me_password-inputs db r e = elim (Result-cases (safe_json c.body)) [
    | inr (fault, k) ↦ absurd (ground (arith, k))
    | inl (body, k) ↦
        elim (Result-cases (text_or_empty server.host.platform (codes "currentPassword") body)) [
          | inr (fault, l) ↦ absurd (ground (arith, k, l))
          | inl (current, l) ↦
              elim (Result-cases (text_or_empty server.host.platform (codes "newPassword") body)) [
                | inr (fault, m) ↦ absurd (ground (arith, k, l, m))
                | inl (new, m) ↦ (body, current, new, k, m, l, ground (arith, k, l, m))
              ]
        ]
  ]

  -- Where `POST /api/me/password` succeeds, the body's current password is that of the stored hash,
  -- its new one is at least 12 characters long by `validatePassword` and not that of the stored hash.
  -- Behind it the hash of the new password is stored, and every session of the user other than the
  -- one of the request is gone.
  pub post_me_password-rotates :
      (db : Db) (r : Reply)
      → (post_me_password server c db).0 ≡ ok r
      → (body : Fields) × (current : Text) × (new : Text) × (old : Text) × (safe_json c.body
          ≡ ok body)
        × (text_or_empty server.host.platform (codes "newPassword") body ≡ ok new)
        × (text_or_empty server.host.platform (codes "currentPassword") body ≡ ok current)
        × (get_own_password_hash c.session.user_id db ≡ some old)
        × (server.verify_password current old ≡ true)
        × (server.verify_password new old ≡ false)
        × (validate_password new ≡ true)
        × (get_own_password_hash c.session.user_id (post_me_password server c db).1
            ≡ some (server.hash_password new))
        × (count
              (other_session c.session.user_id c.session.token)
              (post_me_password server c db).1.sessions
            ≡ 0)
  post_me_password-rotates db r e =
      let (body, current, new, is_body, is_new, is_current, same) =
        post_me_password-inputs db r e in
      let (long, verified, fresh, after) = change_password_to-ok current new db r (rw same at e) in
      let (old, stored, is_old, is_other) =
        verifies-some current new (get_own_password_hash c.session.user_id db) verified fresh in
      (
        body,
        current,
        new,
        old,
        is_body,
        is_new,
        is_current,
        stored,
        is_old,
        is_other,
        long,
        rw same (
            rw after (
              stored_hash server.host c.env c.session.user_id (server.hash_password new)
                c.session.token (client_ip c.headers) db old stored)),
        rw same (
            rw after (
              others_gone server.host c.env c.session.user_id (server.hash_password new)
                c.session.token (client_ip c.headers) db)),
      )
