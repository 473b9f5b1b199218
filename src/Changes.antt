-- ===== src/Changes.antt =====
-- internal/engine/changes.go and changes_scope.go: what a write records as it goes, and the scope
-- that carries it with the outcome of its watermark bump. A kind is an interface of a library: its
-- type and its String method are parameters, and the nil kind is none.
pub mod Scope
pub mod Readers
pub mod Keys
pub mod Kept
pub mod History
mod Examples
use blood_trail.Prelude.{
  ℕ, ◌+◌, ◌&&◌, ◌≡◌, refl, Bool, true, false, List, [], ◌∷◌, ◌++◌, Option, none, some, ltb, leb,
  ◌==◌, if◌then◌else◌, length, map, sort, Str, Key, add, store, lookup, nat_key, str_key,
  triple_key,
}

pub record EdgeTripleRef (K : Type 0) : Type 0 where
  pub start : ℕ
  pub end_ : ℕ
  pub kind : Option K

pub record EdgeTripleOidRef (K : Type 0) : Type 0 where
  pub start_oid : Str
  pub end_oid : Str
  pub kind : Option K

pub record NodeKindDeleteCriteria (K : Type 0) : Type 0 where
  pub include : List (Option K)
  pub exclude : List (Option K)

-- The two ends and the name of the kind.
abbrev pub EdgeTripleKey : Type 0
EdgeTripleKey = ℕ × ℕ × Str

abbrev pub EdgeTripleOidKey : Type 0
EdgeTripleOidKey = Str × Str × Str

pub record ChangeSet (K : Type 0) : Type 0 where
  pub node_ids : List ℕ
  pub node_object_ids : List Str
  pub edge_ids : List ℕ
  pub edge_triples : List (EdgeTripleKey × EdgeTripleRef K)
  pub edge_triples_oid : List (EdgeTripleOidKey × EdgeTripleOidRef K)
  pub node_kind_deletes : List (Str × NodeKindDeleteCriteria K)
  pub edge_kind_deletes : List (Str × List (Option K))
  pub fallbacks : List Str
  pub write_incomplete : List Str

module _ {K : Type 0} where
  -- The zero value: a nil map is an empty one.
  abbrev pub new_change_set : ChangeSet K
  new_change_set = record {
    node_ids = [];
    node_object_ids = [];
    edge_ids = [];
    edge_triples = [];
    edge_triples_oid = [];
    node_kind_deletes = [];
    edge_kind_deletes = [];
    fallbacks = [];
    write_incomplete = [];
  }

-- `,`
abbrev pub comma : Str
comma = 44 ∷ []

-- `|`
abbrev pub bar : Str
bar = 124 ∷ []

-- strings.Join(names, ",")
abbrev pub join : List Str → Str
join [] = []
join (x ∷ []) = x
join (x ∷ y ∷ ys) = x ++ comma ++ join (y ∷ ys)

-- The order of Go's strings, byte by byte.
unfoldable pub str_le : Str → Str → Bool
str_le [] ys = true
str_le (x ∷ xs) [] = false
str_le (x ∷ xs) (y ∷ ys) = if ltb x y then true else if x == y then str_le xs ys else false

pub insert_str : Str → List Str → List Str
insert_str x [] = x ∷ []
insert_str x (y ∷ ys) = if str_le x y then x ∷ y ∷ ys else y ∷ insert_str x ys

-- sort.Strings: equal strings cannot be told apart.
unfoldable pub sort_strings : List Str → List Str
unfolding insert_str
sort_strings [] = []
sort_strings (x ∷ xs) = insert_str x (sort_strings xs)

abbrev pub nothing {ℓ} : {A : Type ℓ} → List A → Bool
nothing [] = true
nothing (x ∷ xs) = false

-- The sorted reasons; none where there are none.
abbrev pub reasons_of : List Str → Option (List Str)
reasons_of [] = none
reasons_of rs = some (sort_strings rs)

module _ {K : Type 0} (string : K → Str) where
  abbrev pub kind_name : Option K → Str
  kind_name none = []
  kind_name (some k) = string k

  unfoldable pub kinds_key : List (Option K) → Str
  kinds_key [] = []
  kinds_key ks = join (sort_strings (map kind_name ks))

  unfoldable pub record_edge_triple : ℕ → ℕ → Option K → ChangeSet K → ChangeSet K
  record_edge_triple s e k c = record c {
    edge_triples =
        store (s, e, kind_name k) (record { start = s; end_ = e; kind = k }) c.edge_triples;
  }

  unfoldable pub record_edge_triple_by_object_id : Str → Str → Option K → ChangeSet K → ChangeSet K
  record_edge_triple_by_object_id s e k c = record c {
    edge_triples_oid =
        store (s, e, kind_name k) (record { start_oid = s; end_oid = e; kind = k })
          c.edge_triples_oid;
  }

  unfoldable pub record_delete_nodes_by_kinds :
      List (Option K) → List (Option K) → ChangeSet K → ChangeSet K
  record_delete_nodes_by_kinds include exclude c = record c {
    node_kind_deletes =
        store (kinds_key include ++ bar ++ kinds_key exclude)
          (record { include = include; exclude = exclude }) c.node_kind_deletes;
  }

  unfoldable pub record_delete_relationships_by_kinds : List (Option K) → ChangeSet K → ChangeSet K
  record_delete_relationships_by_kinds ks c = record c {
    edge_kind_deletes = store (kinds_key ks) ks c.edge_kind_deletes;
  }

module _ {K : Type 0} where
  unfoldable pub record_node_id : ℕ → ChangeSet K → ChangeSet K
  record_node_id id c = record c { node_ids = add id c.node_ids }

  unfoldable pub record_node_object_id : Str → ChangeSet K → ChangeSet K
  record_node_object_id oid c = record c { node_object_ids = add oid c.node_object_ids }

  unfoldable pub record_edge_id : ℕ → ChangeSet K → ChangeSet K
  record_edge_id id c = record c { edge_ids = add id c.edge_ids }

  unfoldable pub record_fallback : Str → ChangeSet K → ChangeSet K
  record_fallback reason c = record c { fallbacks = add reason c.fallbacks }

  unfoldable pub record_write_incomplete : Str → ChangeSet K → ChangeSet K
  record_write_incomplete reason c = record c { write_incomplete = add reason c.write_incomplete }

module _ {K : Type 0} where
  unfoldable pub empty : ChangeSet K → Bool
  empty c =
      nothing c.node_ids
      && nothing c.node_object_ids
      && nothing c.edge_ids
      && nothing c.edge_triples
      && nothing c.edge_triples_oid
      && nothing c.node_kind_deletes
      && nothing c.edge_kind_deletes
      && nothing c.fallbacks

  unfoldable pub key_count : ChangeSet K → ℕ
  key_count c =
      length c.node_ids
      + length c.node_object_ids
      + length c.edge_ids
      + length c.edge_triples
      + length c.edge_triples_oid
      + length c.node_kind_deletes
      + length c.edge_kind_deletes

  unfoldable pub has_fallback : ChangeSet K → Option (List Str)
  has_fallback c = reasons_of c.fallbacks

  unfoldable pub write_incomplete : ChangeSet K → Option (List Str)
  write_incomplete c = reasons_of c.write_incomplete

  unfoldable pub node_ids : ChangeSet K → List ℕ
  node_ids c = sort c.node_ids

  unfoldable pub node_object_ids : ChangeSet K → List Str
  node_object_ids c = sort_strings c.node_object_ids

  unfoldable pub edge_ids : ChangeSet K → List ℕ
  edge_ids c = sort c.edge_ids
