-- ===== src/Reference/Data.antt =====
-- The test cards and message templates: `LoadCards` and `GetRandomCard` of utils/helper.go, `LoadTemplates` and
-- `RandomTemplate` of utils/message_helper.go. The file and its JSON are a parameter: what is read for a
-- path, or `none` if it cannot be opened or decoded. `rand.Intn(n)` panics unless `n` is above 0.
pub mod Loaded
use longclaw.Base.{
  ℕ, ◌-◌, ◌%◌, Bool, not, ◌&&◌, Option, none, some, List, [], ◌∷◌, ◌++◌, Bytes, codes, bytes_eq,
  length, drop, get_elem?, leb, if◌then◌else◌, Go, ok, err, panic,
}
use longclaw.Network.Load.{Card, IsoMsgTemplate}

pub data LoadError : Type 0 where
  not_read : LoadError
  no_cards : LoadError

-- `strings.HasSuffix`
abbrev pub has_suffix : Bytes → Bytes → Bool
has_suffix s suffix =
    leb (length suffix) (length s) && bytes_eq (drop (length s - length suffix) s) suffix

-- A path that is not a JSON file is a directory, with its `/`.
unfoldable pub file_path : (path name : Bytes) → Bytes
file_path path name = if has_suffix path (codes ".json") then path else path ++ name

-- `CardsList`
unfoldable pub checked_cards : Option (List Card) → Go LoadError (List Card)
checked_cards none = err not_read
checked_cards (some []) = err no_cards
checked_cards (some (card ∷ cards)) = ok (card ∷ cards)

unfoldable pub load_cards : (Bytes → Option (List Card)) → Bytes → Go LoadError (List Card)
unfolding file_path checked_cards
load_cards read path = checked_cards (read (file_path path (codes "test_cards.json")))

-- `messageList`
unfoldable pub load_templates :
    (Bytes → Option (List IsoMsgTemplate)) → Bytes → Go LoadError (List IsoMsgTemplate)
unfolding file_path
load_templates read path = elim (read (file_path path (codes "template_messages.json"))) [
  | none ↦ err not_read
  | some templates ↦ ok templates
]

-- The element at `rand.Intn` of the length, for a random number.
unfoldable pub pick_random {ℓ κ} : {E : Type ℓ} {A : Type κ} → List A → (draw : ℕ) → Go E A
pick_random [] draw = panic
pick_random (a ∷ rest) draw = elim (get_elem? (a ∷ rest) (draw % length (a ∷ rest))) [
  | none ↦ panic
  | some chosen ↦ ok chosen
]

unfoldable pub get_random_card {ℓ} : {E : Type ℓ} → List Card → (draw : ℕ) → Go E Card
unfolding pick_random
get_random_card cards draw = pick_random cards draw

unfoldable pub random_template {ℓ} :
    {E : Type ℓ} → List IsoMsgTemplate → (draw : ℕ) → Go E IsoMsgTemplate
unfolding pick_random
random_template templates draw = pick_random templates draw
