-- ===== src/Iso/Spec/Load.antt =====
-- What a loaded specification maps a field number to.
use longclaw.Base.{
  ◌≡◌, ◌∙◌, refl, sym, ap, Option, none, some, List, [], ◌∷◌, if◌then◌else◌, ℤ, Bytes, ok, err,
  ok-injective,
}
use longclaw.Iso.Spec.{
  FieldDef, IsoSpec, LoadError, int_eq, fill_map, empty_spec, filled, load_specs_from_file,
}

-- The last definition of a number, behind what is known of it so far.
abbrev pub last_definition : Option FieldDef → ℤ → List FieldDef → Option FieldDef
last_definition known k [] = known
last_definition known k (d ∷ ds) =
    last_definition (if int_eq d.field_no k then some d else known) k ds

-- Filling a map with definitions gives each number its last definition, or what it had before.
pub fill_map-last_definition :
    (m : ℤ → Option FieldDef) (ds : List FieldDef) (k : ℤ)
    → fill_map m ds k ≡ last_definition (m k) k ds
unfolding fill_map
fill_map-last_definition m [] k = refl
fill_map-last_definition m (d ∷ ds) k =
    fill_map-last_definition (λ j. if int_eq d.field_no j then some d else m j) ds k

-- The specification is what the file at the path decodes to, with the last definition of each number.
pub record HasFields {File : Type 0} (open_file : Bytes → Option File)
    (decode : File → IsoSpec → Option IsoSpec) (path : Bytes) (spec : IsoSpec) : Type 0 where
  pub file : File
  pub decoded : IsoSpec
  pub opened : open_file path ≡ some file
  pub read : decode file empty_spec ≡ some decoded
  pub fields :
      (k : ℤ)
      → spec.field_def_map k ≡ last_definition (decoded.field_def_map k) k decoded.field_definitions

pub load_specs_from_file-HasFields :
    {File : Type 0} (open_file : Bytes → Option File) (decode : File → IsoSpec → Option IsoSpec)
    (path : Bytes) (spec : IsoSpec)
    → load_specs_from_file open_file decode path ≡ ok spec
    → HasFields open_file decode path spec
unfolding load_specs_from_file
load_specs_from_file-HasFields {File} open_file decode path spec e = by_file (open_file path) refl e
  where
    by_decoded :
        (file : File) (o : Option IsoSpec)
        → open_file path ≡ some file
        → decode file empty_spec ≡ o
        → filled o ≡ ok spec
        → HasFields open_file decode path spec
    by_decoded file none opened read e = unfold filled in cc
    by_decoded file (some d) opened read e = record {
      file = file;
      decoded = d;
      opened = opened;
      read = read;
      fields = λ k.
          ap (λ (s : IsoSpec). s.field_def_map k) (sym (ok-injective (unfold filled in e)))
          ∙ fill_map-last_definition d.field_def_map d.field_definitions k;
    }

    by_file :
        (o : Option File)
        → open_file path ≡ o
        → (elim o [
          | none ↦ err LoadError.unable_to_load
          | some file ↦ filled (decode file empty_spec)
        ])
          ≡ ok spec
        → HasFields open_file decode path spec
    by_file none opened e = cc
    by_file (some file) opened e = by_decoded file (decode file empty_spec) opened refl e
