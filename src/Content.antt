-- ===== src/Content.antt =====
-- crates/content/src/lib.rs: block kinds, blocks, their immutable versions, and documents.
-- An id (Uuid) is the number of its 128 bits.
pub mod Video
pub mod Diff
pub mod Merge
pub mod Markdown
use forgepost.Prelude.{
  ℕ, ℤ, ◌≡◌, refl, Bool, true, false, ◌&&◌, Option, none, some, List, [], ◌∷◌, ◌++◌, arith, ◌==◌,
  if◌then◌else◌, find,
}
use forgepost.Text.{Text}
use forgepost.Json.{Json}

abbrev pub Uuid : Type 0
Uuid = ℕ

pub data BlockKind : Type 0 where
  paragraph : BlockKind
  heading : ℕ → BlockKind
  image : BlockKind
  quote : BlockKind
  code : BlockKind
  call_to_action : BlockKind
  divider : BlockKind
  list : Bool → BlockKind
  video : BlockKind

abbrev bool_eq : Bool → Bool → Bool
bool_eq true true = true
bool_eq false false = true
bool_eq true false = false
bool_eq false true = false

-- The derived equality of block kinds: the level and the order flag count.
unfoldable pub kind_eq : BlockKind → BlockKind → Bool
kind_eq paragraph paragraph = true
kind_eq (heading l) (heading m) = l == m
kind_eq image image = true
kind_eq quote quote = true
kind_eq code code = true
kind_eq call_to_action call_to_action = true
kind_eq divider divider = true
kind_eq (list o) (list p) = bool_eq o p
kind_eq video video = true
kind_eq _ _ = false

unfoldable pub is_experimentable : BlockKind → Bool
is_experimentable paragraph = true
is_experimentable (heading l) = true
is_experimentable image = true
is_experimentable call_to_action = true
is_experimentable _ = false

pub record ParsedBlock : Type 0 where
  pub kind : BlockKind
  pub content : Json

pub record BlockVersion : Type 0 where
  pub id : Uuid
  pub block_id : Uuid
  pub content : Json
  pub created_at_ms : ℤ

pub record Block : Type 0 where
  pub id : Uuid
  pub kind : BlockKind
  pub version_id : Uuid
  pub position : ℤ
  pub created_at_ms : ℤ
  pub updated_at_ms : ℤ

pub record Document : Type 0 where
  pub id : Uuid
  pub title : Text
  pub blocks : List Block
  pub versions : List BlockVersion
  pub created_at_ms : ℤ
  pub updated_at_ms : ℤ

-- Document::block and Document::version: the first with the id.
unfoldable pub block : Document → Uuid → Option Block
block d id = find (λ b. b.id == id) d.blocks

unfoldable pub version : Document → Uuid → Option BlockVersion
version d id = find (λ v. v.id == id) d.versions

-- The content that a block shows now.
unfoldable pub current_content : Document → Uuid → Option Json
unfolding block version
current_content d id = elim (block d id) [
  | none ↦ none
  | some b ↦ elim (version d b.version_id) [ none ↦ none | some v ↦ some v.content ]
]

pub kind_eq_refl : (k : BlockKind) → kind_eq k k ≡ true
unfolding kind_eq
kind_eq_refl paragraph = refl
kind_eq_refl (heading l) = ground arith
kind_eq_refl (list true) = refl
kind_eq_refl (list false) = refl
kind_eq_refl _ = refl

pub kind_eq→eq : (k j : BlockKind) → kind_eq k j ≡ true → k ≡ j
unfolding kind_eq
kind_eq→eq paragraph paragraph h = refl
kind_eq→eq (heading l) (heading m) h = ground arith
kind_eq→eq image image h = refl
kind_eq→eq quote quote h = refl
kind_eq→eq code code h = refl
kind_eq→eq call_to_action call_to_action h = refl
kind_eq→eq divider divider h = refl
kind_eq→eq (list o) (list p) h = ground arith
kind_eq→eq video video h = refl
kind_eq→eq _ _ h = cc
