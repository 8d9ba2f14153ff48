-- ===== src/Auth/Admin/Settled.antt =====
-- services/auth/internal/api: what each call leaves of the tables and of the generation.
use giti.Prelude.{
  ◌≡◌, refl, ℕ, ℤ, Bool, true, false, not, ◌&&◌, Option, none, some, [], Text, codes, text_eq, atoi,
  ltb, leb, Result, ok, err, arith, inl, inr, Bool-cases,
}
use giti.Rows.{StoreError, not_found, conflict, passed}
use giti.Auth.Rules.{Rule}
use giti.Auth.Check.{User}
use giti.Auth.Store.{
  AuthDb, create_user, delete_user, create_role, delete_role, assign_role_user, create_rule,
  is_access, delete_rule,
}
use giti.Auth.Store.Intact.{IsIntact}
use giti.Auth.Store.Intact.Changes.{
  Change, creates_user, deletes_user, creates_role, deletes_role, assigns_user, creates_rule,
  deletes_rule, Change-IsIntact,
}
use giti.Auth.Admin.{
  UserBody, LoginBody, Reply, Service, Decoders, Call, login, get_users, post_user, remove_user,
  get_roles, post_role, remove_role, associate_role, get_rules, post_rule, remove_rule, http_err,
  next_generation, bump_gen, answer_change, answer_rule, create_hashed, create_user_body,
  create_rule_body, delete_rule_id, issued, login_user, login_body_reply, list_users_reply,
  list_roles_reply, list_rules_reply, delete_user_reply, create_role_reply, delete_role_reply,
  associate_role_reply, serve,
}

-- A call changes the tables by one method of the store and bumps the generation, or it changes
-- nothing.
pub data IsSettled (s : Service) : Reply × Service → Type 0 where
  refuses : {r : Reply} → leb 400 r.status ≡ true → IsSettled s (r, s)
  answers : {r : Reply} → ltb r.status 300 ≡ true → IsSettled s (r, s)
  changes :
      {r : Reply} {db : AuthDb}
      → ltb r.status 300 ≡ true
      → Change s.db db
      → IsSettled s (r, record s { db = db; generation = next_generation s.generation })

http_err-refused : (e : StoreError) → leb 400 (http_err e).status ≡ true
unfolding http_err
http_err-refused not_found = refl
http_err-refused conflict = refl
http_err-refused (passed e) = refl

answer_change-IsSettled :
    (status : ℕ) (s : Service) (m : Result StoreError AuthDb)
    → ltb status 300 ≡ true
    → ((db : AuthDb) → m ≡ ok db → Change s.db db)
    → IsSettled s (answer_change status s m)
unfolding answer_change bump_gen
answer_change-IsSettled status s (ok db) h change = changes h (change db refl)
answer_change-IsSettled status s (err e) h change = refuses (http_err-refused e)

guard-is_access :
    (a : Text)
    → (not (text_eq a (codes "ALLOW"))
        && not (text_eq a (codes "DENY"))
        && not (text_eq a (codes "LIMIT")))
      ≡ false
    → is_access a ≡ true
unfolding is_access
guard-is_access a h = ground arith

IsSettled-IsIntact :
    {s : Service} {out : Reply × Service} → IsSettled s out → IsIntact s.db → IsIntact out.1.db
IsSettled-IsIntact (refuses e) h = h
IsSettled-IsIntact (answers e) h = h
IsSettled-IsIntact (changes e c) h = Change-IsIntact c h

module _ (d : Decoders) (collate : Text → Text → Bool) where
  create_hashed-IsSettled :
      (u : UserBody) (hash : Option Text) (s : Service)
      → IsSettled s (create_hashed d collate u hash s)
  unfolding create_hashed
  create_hashed-IsSettled u none s = refuses refl
  create_hashed-IsSettled u (some hash) s =
      let row : User = record { name = u.user_name; enabled = u.enabled; password_hash = hash } in
      answer_change-IsSettled 201 s (create_user row s.db) refl (λ db e. creates_user row e)

  create_user_body-IsSettled :
      (b : Option UserBody) (s : Service) → IsSettled s (create_user_body d collate b s)
  unfolding create_user_body
  create_user_body-IsSettled none s = refuses refl
  create_user_body-IsSettled (some u) s = elim (Bool-cases (text_eq u.user_name [])) [
    | inl nameless ↦ rw nameless (refuses refl)
    | inr named ↦ rw named (create_hashed-IsSettled u (d.hash u.password) s)
  ]

  create_rule_body-IsSettled :
      (b : Option Rule) (s : Service) → IsSettled s (create_rule_body d collate b s)
  unfolding create_rule_body create_rule answer_rule bump_gen
  create_rule_body-IsSettled none s = refuses refl
  create_rule_body-IsSettled (some b) s =
      let guard =
        not (text_eq b.access (codes "ALLOW"))
        && not (text_eq b.access (codes "DENY"))
        && not (text_eq b.access (codes "LIMIT")) in
      elim (Bool-cases guard) [
        | inl wrong ↦ rw wrong (refuses refl)
        | inr right ↦
            let valid = guard-is_access b.access right in
            let change : Change s.db (create_rule b s.db).1 = creates_rule b in
            rw (right, valid) (changes refl (rw valid at change))
      ]

  issued-IsSettled : (tok : Option Text) (s : Service) → IsSettled s (issued d collate tok, s)
  unfolding issued
  issued-IsSettled none s = refuses refl
  issued-IsSettled (some tok) s = answers refl

  login_user-IsSettled :
      (pw : Text) (m : Result StoreError User) (s : Service)
      → IsSettled s (login_user d collate pw s.db m, s)
  unfolding login_user
  login_user-IsSettled pw (err e) s = refuses refl
  login_user-IsSettled pw (ok u) s = elim (Bool-cases (u.enabled && d.verify pw u.password_hash)) [
    | inl valid ↦ rw valid (issued-IsSettled _ s)
    | inr invalid ↦ rw invalid (refuses refl)
  ]

  login_body_reply-IsSettled :
      (b : Option LoginBody) (s : Service) → IsSettled s (login_body_reply d collate b s.db, s)
  unfolding login_body_reply
  login_body_reply-IsSettled none s = refuses refl
  login_body_reply-IsSettled (some b) s = login_user-IsSettled b.password _ s

  delete_id-IsSettled : (id : Option ℤ) (s : Service) → IsSettled s (delete_rule_id d collate id s)
  unfolding delete_rule_id
  delete_id-IsSettled none s = refuses refl
  delete_id-IsSettled (some n) s =
      answer_change-IsSettled 200 s (delete_rule n s.db) refl (λ db e. deletes_rule n e)

  -- Every call of the routes either changes the tables by one method of the store, bumps the generation
  -- and answers with a status below 300, or leaves tables and generation as they are and answers with
  -- a status below 300 or from 400 on.
  pub serve-IsSettled : (c : Call) (s : Service) → IsSettled s (serve d collate c s)
  unfolding serve delete_user_reply create_role_reply delete_role_reply associate_role_reply
      list_users_reply list_roles_reply list_rules_reply
  serve-IsSettled (login body) s = login_body_reply-IsSettled (d.login_body body) s
  serve-IsSettled (get_users true) s = answers refl
  serve-IsSettled (get_users false) s = answers refl
  serve-IsSettled (post_user body) s = create_user_body-IsSettled (d.user_body body) s
  serve-IsSettled (remove_user u) s =
      answer_change-IsSettled 200 s (delete_user u s.db) refl (λ db e. deletes_user u e)
  serve-IsSettled (get_roles true) s = answers refl
  serve-IsSettled (get_roles false) s = answers refl
  serve-IsSettled (post_role r) s =
      answer_change-IsSettled 201 s (create_role r s.db) refl (λ db e. creates_role r e)
  serve-IsSettled (remove_role r) s =
      answer_change-IsSettled 200 s (delete_role r s.db) refl (λ db e. deletes_role r e)
  serve-IsSettled (associate_role r u) s =
      answer_change-IsSettled 200 s (assign_role_user r u s.db) refl (λ db e. assigns_user r u e)
  serve-IsSettled get_rules s = answers refl
  serve-IsSettled (post_rule body) s = create_rule_body-IsSettled (d.rule_body body) s
  serve-IsSettled (remove_rule id) s = delete_id-IsSettled (atoi id) s

  -- The keys and references of the tables hold after every call.
  pub serve-IsIntact :
      (c : Call) (s : Service) → IsIntact s.db → IsIntact (serve d collate c s).1.db
  serve-IsIntact c s h = IsSettled-IsIntact (serve-IsSettled c s) h
