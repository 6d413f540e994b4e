-- ===== src/Graph/Repository.antt =====
-- The interface GraphRepository of internal/graph/repository.go, as its clients use it, and what they
-- rely on. A write that fails returns no value; a missing node and an error of GetNode are one.
use code_rag.Common.{
  String, Bool, true, false, Option, some, List, [], ◌∷◌, ◌≡◌, str_eq, str_mem, All, if◌then◌else◌,
}
use code_rag.Graph.Types.{Values, Properties, Node, Edge, property}
use code_rag.Graph.Edges.{Direction}

pub record GraphRepository (V : Values) : Type 1 where
  pub World : Type 0
  pub upsert_node : String → Properties V → Properties V → World → Option (Node V) × World
  pub get_node : World → String → Option (Node V)
  pub find_nodes : String → Properties V → World → Option (List (Node V))
  pub link : String → String → String → Option (Properties V) → World → Option (Edge V) × World
  pub neighbors : String → String → Direction → World → Option (List (Edge V × Node V))
  pub remove_nodes : List String → World → Bool × World

module _ (V : Values) where
  -- The value that the last entry for a key gives, or an older one.
  unfoldable pub last_value : Properties V → String → V.Value → V.Value
  last_value [] key old = old
  last_value ((k, v) ∷ props) key old = last_value props key (if str_eq k key then v else old)

  unfoldable pub has_key : Properties V → String → Bool
  has_key [] key = false
  has_key ((k, v) ∷ props) key = if str_eq k key then true else has_key props key

  -- The repository sets these itself.
  unfoldable pub is_reserved : String → Bool
  is_reserved key = str_mem key ("updated_at" ∷ "created_at" ∷ "id" ∷ "project_id" ∷ [])

  -- An identity with no key twice, whose entries equal themselves and are not among the properties.
  abbrev pub IsIdentity : Properties V → Properties V → Type 0
  IsIdentity [] properties = Unit {0}
  IsIdentity ((k, v) ∷ identity) properties =
      (has_key properties k ≡ false)
      × (has_key identity k ≡ false)
      × (str_eq k "updated_at" ≡ false)
      × (V.deep_equal v v ≡ true)
      × IsIdentity identity properties

  -- Good worlds are those that the repository itself leads to. In them an upserted node is what its
  -- identity finds first and has the properties that were given, and a search all of whose results are
  -- removed finds nothing; a link changes no search.
  pub record RepositoryLaws (R : GraphRepository V) : Type 1 where
    pub Good : R.World → Type 0
    pub upsert-Good :
        (kind : String) (identity properties : Properties V) (w w' : R.World) (n : Node V)
        → R.upsert_node kind identity properties w ≡ (some n, w')
        → Good w
        → Good w'
    pub remove-Good :
        (ids : List String) (w w' : R.World) → R.remove_nodes ids w ≡ (true, w') → Good w → Good w'
    pub upsert-find :
        (kind : String) (identity properties : Properties V) (w w' : R.World) (n : Node V)
        → R.upsert_node kind identity properties w ≡ (some n, w')
        → IsIdentity identity properties
        → Good w
        → (rest : List (Node V)) × (R.find_nodes kind identity w' ≡ some (n ∷ rest))
    pub upsert-property :
        (kind : String) (identity properties : Properties V) (w w' : R.World) (n : Node V)
        → R.upsert_node kind identity properties w ≡ (some n, w')
        → (key : String) → is_reserved key ≡ false
        → has_key identity key ≡ false
        → (old : V.Value) × (property V n.properties key ≡ last_value properties key old)
    pub remove-find :
        (ids : List String) (w w' : R.World) (kind : String) (filters : Properties V)
        (nodes : List (Node V))
        → R.remove_nodes ids w ≡ (true, w')
        → R.find_nodes kind filters w ≡ some nodes
        → All (λ n. str_mem n.id ids ≡ true) nodes
        → R.find_nodes kind filters w' ≡ some []
    pub link-Good :
        (kind from to : String) (properties : Option (Properties V)) (w : R.World)
        → Good w
        → Good ((R.link kind from to properties w).1)
    pub link-find :
        (kind from to : String) (properties : Option (Properties V)) (w : R.World) (other : String)
        (filters : Properties V)
        → R.find_nodes other filters ((R.link kind from to properties w).1)
          ≡ R.find_nodes other filters w
