-- ===== src/Iso/Spec.antt =====
-- iso/iso_spec.go: the field definitions and the map that a specification file fills.
pub mod Load
pub mod Kinds
use longclaw.Base.{
  ℕ, Bool, true, false, ◌&&◌, Option, none, some, List, [], ◌∷◌, Bytes, codes, bytes_eq, ◌==◌,
  if◌then◌else◌, Go, ok, err, panic, ℤ, pos, negsuc,
}

pub record FieldDef : Type 0 where
  pub field_no : ℤ
  pub field_name : Bytes
  pub field_description : Bytes
  pub field_type : Bytes
  pub min_length : ℤ
  pub max_length : ℤ

pub record IsoSpec : Type 0 where
  pub spec_name : Bytes
  pub field_definitions : List FieldDef
  pub field_def_map : ℤ → Option FieldDef

-- How the parser and the printer read `FieldType`; a variable field has 2 or 3 length digits.
pub data Kind : Type 0 where
  fixed : Kind
  variable : ℕ → Kind
  unknown : Kind

unfoldable pub field_kind : Bytes → Kind
field_kind t =
    if bytes_eq t (codes "Fixed")
    then fixed
    else if bytes_eq t (codes "LLVar")
    then variable 2
    else if bytes_eq t (codes "LLLVar")
    then variable 3
    else unknown

abbrev pub int_eq : ℤ → ℤ → Bool
int_eq (pos a) (pos b) = a == b
int_eq (pos a) (negsuc b) = false
int_eq (negsuc a) (pos b) = false
int_eq (negsuc a) (negsuc b) = a == b

-- `isoSpec.FieldDefMap[fieldDef.FieldNo] = fieldDef` for each definition in turn.
unfoldable pub fill_map : (ℤ → Option FieldDef) → List FieldDef → ℤ → Option FieldDef
fill_map m [] = m
fill_map m (d ∷ ds) = fill_map (λ k. if int_eq d.field_no k then some d else m k) ds

pub data LoadError : Type 0 where
  unable_to_load : LoadError

abbrev pub empty_spec : IsoSpec
empty_spec = record { spec_name = []; field_definitions = []; field_def_map = λ k. none }

-- What is made of the decoded file; a file that cannot be decoded stops the program.
unfoldable pub filled : Option IsoSpec → Go LoadError IsoSpec
filled none = panic
filled (some spec) =
    ok (record spec { field_def_map = fill_map spec.field_def_map spec.field_definitions })

-- The file system and the JSON decoder are parameters; the decoder fills the value it is given.
module _ {File : Type 0} (open_file : Bytes → Option File)
    (decode : File → IsoSpec → Option IsoSpec) where
  unfoldable pub load_specs_from_file : Bytes → Go LoadError IsoSpec
  unfolding filled
  load_specs_from_file path = elim (open_file path) [
    | none ↦ err unable_to_load
    | some file ↦ filled (decode file empty_spec)
  ]
