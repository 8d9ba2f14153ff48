-- ===== src/Catalog/Intact/Removed.antt =====
-- services/catalog/internal/store/store.go: what the deletions of workspaces and stores take away.
use giti.Prelude.{
  ◌≡◌, refl, ap, Bool, true, false, not, List, [], ◌∷◌, Text, text_eq, text_eq_iff, ok, all_of,
  arith, inl, inr, Bool-cases, and-eq-true,
}
use giti.Rows.{any_row, keep, drop_rows, has_key, has_pair}
use giti.Rows.Laws.{any_row-keep_found, any_row-drop_rows_none}
use giti.Catalog.Model.{
  Store, Resource, Layer, CatalogDb, workspace_name, store_workspace, resource_workspace,
  resource_store, layer_workspace,
}
use giti.Catalog.Stores.{without_workspace, delete_workspace, without_store, delete_store}
use giti.Catalog.Layers.{in_store}
use giti.Catalog.Intact.{IsCatalog}
use giti.Catalog.Intact.Deletions.{delete_workspace-eq, delete_store-eq}

-- No row refers to the store or the workspace that is deleted, so that none goes with it.
drop_rows-none :
    {A : Type 0} (p : A → Bool) (xs : List A) → any_row p xs ≡ false → drop_rows p xs ≡ xs
unfolding drop_rows keep any_row
drop_rows-none p [] h = refl
drop_rows-none p (x ∷ xs) h =
    let stays : p x ≡ false = ground (arith, h) in
    let rest : any_row p xs ≡ false = ground (arith, h) in rw (stays, drop_rows-none p xs rest) refl

any_row-drop_rows_other :
    {A : Type 0} (p q : A → Bool)
    → ((x : A) → p x ≡ true → q x ≡ false)
    → (xs : List A) → any_row p (drop_rows q xs) ≡ any_row p xs
unfolding drop_rows
any_row-drop_rows_other p q h xs =
    any_row-keep_found p (λ (x : _). not (q x)) (λ (x : _) e. rw (h x e) refl) xs

any_row-in_store :
    (name : Text) (r : Resource) (ss : List Store)
    → has_key resource_workspace name r ≡ true
    → any_row (in_store r) ss ≡ true
    → any_row (has_key store_workspace name) ss ≡ true
unfolding any_row in_store has_pair has_key
any_row-in_store name r [] inside found = cc found
any_row-in_store name r (s ∷ ss) inside found =
    let ih : any_row (in_store r) ss ≡ true → any_row (has_key store_workspace name) ss ≡ true =
      any_row-in_store name r ss inside in
    let ws : resource_workspace r ≡ name = (text_eq_iff (resource_workspace r) name).0 inside in
    let turn : text_eq s.workspace (resource_workspace r) ≡ text_eq s.workspace name =
      ap (text_eq s.workspace) ws in
    ground (arith, ih, found, turn)

-- In an empty workspace there is no resource.
any_row-resources :
    (name : Text) (ss : List Store) (rs : List Resource)
    → any_row (has_key store_workspace name) ss ≡ false
    → all_of (λ (r : Resource). any_row (in_store r) ss) rs ≡ true
    → any_row (has_key resource_workspace name) rs ≡ false
unfolding any_row
any_row-resources name ss [] empty h = refl
any_row-resources name ss (r ∷ rs) empty h =
    let (here, rest) =
      and-eq-true (any_row (in_store r) ss) (all_of (λ (x : Resource). any_row (in_store x) ss) rs)
        h in
    elim (Bool-cases (has_key resource_workspace name r)) [
      | inl inside ↦ cc (any_row-in_store name r ss inside here, empty)
      | inr outside ↦ rw outside (any_row-resources name ss rs empty rest)
    ]

-- Where keys and references hold, a deletion of a workspace without recurse that succeeds leaves all
-- stores, feature types and coverages as they were.
pub delete_workspace-kept :
    (name : Text) (db db' : CatalogDb)
    → IsCatalog db
    → delete_workspace name false db ≡ ok db'
    → (db'.stores ≡ db.stores) × (db'.resources ≡ db.resources)
unfolding without_workspace
delete_workspace-kept name db db' h e =
    let (whole, why) = delete_workspace-eq name false db db' e in
    elim why [
      | inl recursive ↦ cc recursive
      | inr empty ↦
          let unused = any_row-resources name db.stores db.resources empty h.resources_in in
          rw whole (
            drop_rows-none (has_key store_workspace name) db.stores empty,
            drop_rows-none (has_key resource_workspace name) db.resources unused,
          )
    ]

-- Without recurse no feature type or coverage is lost with a store.
pub delete_store-kept :
    (ws name : Text) (db db' : CatalogDb)
    → delete_store ws name false db ≡ ok db'
    → db'.resources ≡ db.resources
unfolding without_store
delete_store-kept ws name db db' e =
    let (whole, why) = delete_store-eq ws name false db db' e in
    elim why [
      | inl recursive ↦ cc recursive
      | inr empty ↦
          rw whole
            (drop_rows-none (has_pair resource_workspace resource_store ws name) db.resources empty)
    ]

-- What is left of a workspace that was deleted, with recurse or without: no store, feature type,
-- coverage or layer, and the rows of all other workspaces as they were.
pub record IsGone (name : Text) (db db' : CatalogDb) : Type 0 where
  pub no_workspace : any_row (has_key workspace_name name) db'.workspaces ≡ false
  pub no_store : any_row (has_key store_workspace name) db'.stores ≡ false
  pub no_resource : any_row (has_key resource_workspace name) db'.resources ≡ false
  pub no_layer : any_row (has_key layer_workspace name) db'.layers ≡ false
  pub other_stores :
      (p : Store → Bool)
      → ((s : Store) → p s ≡ true → has_key store_workspace name s ≡ false)
      → any_row p db'.stores ≡ any_row p db.stores
  pub other_layers :
      (p : Layer → Bool)
      → ((l : Layer) → p l ≡ true → has_key layer_workspace name l ≡ false)
      → any_row p db'.layers ≡ any_row p db.layers
  pub other_resources :
      (p : Resource → Bool)
      → ((r : Resource) → p r ≡ true → has_key resource_workspace name r ≡ false)
      → any_row p db'.resources ≡ any_row p db.resources

-- A workspace that is deleted leaves no store, feature type, coverage or layer of its own, and takes
-- none of another workspace with it.
pub delete_workspace-IsGone :
    (name : Text) (recurse : Bool) (db db' : CatalogDb)
    → delete_workspace name recurse db ≡ ok db'
    → IsGone name db db'
unfolding without_workspace
delete_workspace-IsGone name recurse db db' e =
    let (whole, why) = delete_workspace-eq name recurse db db' e in
    rw whole (record {
      no_workspace = any_row-drop_rows_none (has_key workspace_name name) db.workspaces;
      no_store = any_row-drop_rows_none (has_key store_workspace name) db.stores;
      no_resource = any_row-drop_rows_none (has_key resource_workspace name) db.resources;
      no_layer = any_row-drop_rows_none (has_key layer_workspace name) db.layers;
      other_stores = λ p f. any_row-drop_rows_other p (has_key store_workspace name) f db.stores;
      other_layers = λ p f. any_row-drop_rows_other p (has_key layer_workspace name) f db.layers;
      other_resources =
          λ p f. any_row-drop_rows_other p (has_key resource_workspace name) f db.resources;
    })
