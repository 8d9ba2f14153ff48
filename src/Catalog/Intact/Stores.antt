-- ===== src/Catalog/Intact/Stores.antt =====
-- services/catalog/internal/store/store.go: workspaces and stores.
use giti.Prelude.{
  ◌≡◌, refl, sym, ap, ◌∙◌, true, false, List, [], ◌∷◌, Text, text_eq, text_eq_iff, ok, ok-injective,
  arith, inl, inr, Bool-cases,
}
use giti.Rows.{any_row, update_rows, unique, insert_row, has_key, same_key}
use giti.Rows.Laws.{text_eq_sym, same_key_sym}
use giti.Rows.Inserts.{insert_row-unique, insert_row-any_row, saved-eq}
use giti.Rows.Updates.{any_row-update_rows, unique-renamed}
use giti.Rows.Cascade.{all_of-weaken_absent}
use giti.Catalog.Model.{
  Workspace, Store, Layer, CatalogDb, workspace_name, store_workspace, layer_workspace,
}
use giti.Catalog.Stores.{create_workspace, update_workspace, set_workspace, is_referred}
use giti.Catalog.Intact.{IsCatalog, with_workspaces, with_more_workspaces}

pub create_workspace-IsCatalog :
    (w : Workspace) (db db' : CatalogDb)
    → create_workspace w db ≡ ok db'
    → IsCatalog db
    → IsCatalog db'
unfolding create_workspace
create_workspace-IsCatalog w db db' e h =
    let (rows, (done, same)) =
      saved-eq (λ (rows : List Workspace). record db { workspaces = rows })
        (insert_row (same_key workspace_name) true w db.workspaces) db' e in
    rw same (
      with_more_workspaces db h rows
        (insert_row-unique (same_key workspace_name) (same_key_sym workspace_name) true w
          db.workspaces rows h.workspaces_key done)
        (λ k there.
          insert_row-any_row (same_key workspace_name) (has_key workspace_name k) true w
            db.workspaces rows done
          ∙ rw there refl))

set_workspace-name : (w x : Workspace) → (set_workspace w x).name ≡ w.name
unfolding set_workspace
set_workspace-name w x = refl

set_workspace-key :
    (name : Text) (w : Workspace) (k : Text) (x : Workspace)
    → w.name ≡ name
    → has_key workspace_name name x ≡ true
    → has_key workspace_name k (set_workspace w x) ≡ has_key workspace_name k x
unfolding set_workspace has_key
set_workspace-key name w k x e found =
    let old : x.name ≡ name = (text_eq_iff x.name name).0 found in
    ap (λ (t : Text). text_eq t k) (e ∙ sym old)

has_key-is :
    (name : Text) (x : Workspace)
    → has_key workspace_name name x ≡ true
    → text_eq x.name name ≡ true
unfolding has_key
has_key-is name x h = h

same_key-set :
    (name : Text) (w y z : Workspace)
    → w.name ≡ name
    → has_key workspace_name name z ≡ true
    → same_key workspace_name y (set_workspace w z) ≡ same_key workspace_name y z
unfolding set_workspace same_key
same_key-set name w y z e found =
    ap (text_eq y.name) (e ∙ sym ((text_eq_iff z.name name).0 (has_key-is name z found)))

-- Keys that a change of a row leaves are as unique as before.
unique-same_name :
    (name : Text) (w : Workspace) (xs : List Workspace)
    → w.name ≡ name
    → unique (same_key workspace_name) xs ≡ true
    → unique
        (same_key workspace_name)
        (update_rows (has_key workspace_name name) (set_workspace w) xs)
      ≡ true
unfolding unique update_rows same_key set_workspace
unique-same_name name w [] e h = refl
unique-same_name name w (x ∷ xs) e h =
    let p = has_key workspace_name name in
    let ih : unique (same_key workspace_name) xs ≡ true
        → unique (same_key workspace_name) (update_rows p (set_workspace w) xs) ≡ true =
      unique-same_name name w xs e in
    let same_any : (y : Workspace)
        → any_row (same_key workspace_name y) (update_rows p (set_workspace w) xs)
          ≡ any_row (same_key workspace_name y) xs =
      λ y.
        any_row-update_rows p (set_workspace w) (same_key workspace_name y)
          (λ z found. same_key-set name w y z e found) xs in
    elim (Bool-cases (p x)) [
      | inl found ↦
          let at_x : any_row (same_key workspace_name (set_workspace w x)) xs
              ≡ any_row (same_key workspace_name x) xs =
            ap (λ (t : Text). any_row (λ (z : Workspace). text_eq t z.name) xs)
              (e ∙ sym ((text_eq_iff x.name name).0 (has_key-is name x found))) in
          rw found (rw (same_any (set_workspace w x), at_x) (ground (arith, ih)))
      | inr kept ↦ rw kept (rw (same_any x) (ground (arith, ih)))
    ]

any_row-renamed :
    (name : Text) (w : Workspace) (k : Text) (xs : List Workspace)
    → text_eq k name ≡ false
    → any_row (has_key workspace_name w.name) xs ≡ false
    → any_row (has_key workspace_name k) xs ≡ true
    → any_row
        (has_key workspace_name k)
        (update_rows (has_key workspace_name name) (set_workspace w) xs)
      ≡ true
unfolding any_row update_rows has_key set_workspace
any_row-renamed name w k [] other free there = there
any_row-renamed name w k (x ∷ xs) other free there =
    let ih : any_row (has_key workspace_name w.name) xs ≡ false
        → any_row (has_key workspace_name k) xs ≡ true
        → any_row (has_key workspace_name k)
            (update_rows (has_key workspace_name name) (set_workspace w) xs)
          ≡ true =
      any_row-renamed name w k xs other in
    elim (Bool-cases (text_eq x.name name)) [
      | inl found ↦
          let old : x.name ≡ name = (text_eq_iff x.name name).0 found in
          let not_k : text_eq x.name k ≡ false = rw old (text_eq_sym name k ∙ other) in
          rw found (ground (arith, ih, not_k))
      | inr kept ↦ rw kept (ground (arith, ih))
    ]

has_key-text :
    {A : Type 0} (key : A → Text) (k : Text) (x : A)
    → has_key key k x ≡ false
    → text_eq (key x) k ≡ false
unfolding has_key
has_key-text key k x h = h

-- An update that leaves the name keeps every reference.
same_name-IsCatalog :
    (name : Text) (w : Workspace) (db : CatalogDb)
    → w.name ≡ name
    → IsCatalog db
    → IsCatalog (record db {
      workspaces = update_rows (has_key workspace_name name) (set_workspace w) db.workspaces;
    })
same_name-IsCatalog name w db e h =
    let p = has_key workspace_name name in
    let kept : (k : Text) (x : Workspace)
        → p x ≡ true
        → has_key workspace_name k (set_workspace w x) ≡ has_key workspace_name k x =
      λ k x found. set_workspace-key name w k x e found in
    with_more_workspaces db h (update_rows p (set_workspace w) db.workspaces)
      (unique-same_name name w db.workspaces e h.workspaces_key)
      (λ k there.
        any_row-update_rows p (set_workspace w) (has_key workspace_name k) (kept k) db.workspaces
        ∙ there)

-- A workspace that nothing refers to gets a name that is free.
renamed-IsCatalog :
    (name : Text) (w : Workspace) (db : CatalogDb)
    → any_row (has_key workspace_name w.name) db.workspaces ≡ false
    → is_referred name db ≡ false
    → IsCatalog db
    → IsCatalog (record db {
      workspaces = update_rows (has_key workspace_name name) (set_workspace w) db.workspaces;
    })
unfolding is_referred
renamed-IsCatalog name w db free unreferred h =
    let p = has_key workspace_name name in
    let ws = update_rows p (set_workspace w) db.workspaces in
    let no_store : any_row (has_key store_workspace name) db.stores ≡ false =
      ground (arith, unreferred) in
    let no_layer : any_row (has_key layer_workspace name) db.layers ≡ false =
      ground (arith, unreferred) in
    let kept : (k : Text)
        → any_row (has_key workspace_name k) db.workspaces ≡ true
        → text_eq k name ≡ false
        → any_row (has_key workspace_name k) ws ≡ true =
      λ k there other. any_row-renamed name w k db.workspaces other free there in
    with_workspaces db h ws
      (unique-renamed workspace_name name w.name (set_workspace w) (set_workspace-name w)
        db.workspaces h.workspaces_key free)
      (all_of-weaken_absent
        (λ (s : Store). any_row (has_key workspace_name s.workspace) db.workspaces)
        (λ (s : Store). any_row (has_key workspace_name s.workspace) ws)
        (has_key store_workspace name)
        (λ (s : Store) there other.
          kept s.workspace there (has_key-text store_workspace name s other))
        db.stores h.stores_in no_store)
      (all_of-weaken_absent
        (λ (l : Layer). any_row (has_key workspace_name l.workspace) db.workspaces)
        (λ (l : Layer). any_row (has_key workspace_name l.workspace) ws)
        (has_key layer_workspace name)
        (λ (l : Layer) there other.
          kept l.workspace there (has_key-text layer_workspace name l other))
        db.layers h.layers_in no_layer)

pub update_workspace-IsCatalog :
    (name : Text) (w : Workspace) (db db' : CatalogDb)
    → update_workspace name w db ≡ ok db'
    → IsCatalog db
    → IsCatalog db'
unfolding update_workspace
update_workspace-IsCatalog name w db db' e h =
    elim (Bool-cases (any_row (has_key workspace_name name) db.workspaces)) [
      | inr missing ↦ cc (rw missing at e)
      | inl found ↦ elim (Bool-cases (text_eq w.name name)) [
        | inl same ↦
            rw (sym (ok-injective (rw (found, same) at e)))
              (same_name-IsCatalog name w db ((text_eq_iff w.name name).0 same) h)
        | inr other ↦ elim (Bool-cases (any_row (has_key workspace_name w.name) db.workspaces)) [
          | inl taken ↦ cc (rw (found, other, taken) at e)
          | inr free ↦ elim (Bool-cases (is_referred name db)) [
            | inl referred ↦ cc (rw (found, other, free, referred) at e)
            | inr unreferred ↦
                rw (sym (ok-injective (rw (found, other, free, unreferred) at e)))
                  (renamed-IsCatalog name w db free unreferred h)
          ]
        ]
      ]
    ]
