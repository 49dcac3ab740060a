-- ===== src/Reference/Data/Loaded.antt =====
-- What the loaded lists of utils/helper.go and utils/message_helper.go are good for.
use native.Mathlib.Nat.{mod-lt}
use mathlib.Core.Path.{subst}
use longclaw.Base.{
  ℕ, ◌%◌, ◌≡◌, ◌≢◌, refl, arith, Option, none, some, List, [], ◌∷◌, Bytes, codes, length,
  get_elem?-some, Go, ok, panic, ok-injective,
}
use longclaw.Network.Load.{Card, IsoMsgTemplate}
use longclaw.Reference.Data.{
  LoadError, file_path, checked_cards, load_cards, load_templates, pick_random, get_random_card,
  random_template,
}

pick_random-ne-panic {ℓ} :
    {A : Type ℓ} (a : A) (rest : List A) (draw : ℕ)
    → pick_random {E = LoadError} (a ∷ rest) draw ≢ panic
unfolding pick_random
pick_random-ne-panic {A = A} a rest draw e =
    let (chosen, e') =
      get_elem?-some (a ∷ rest) (draw % length (a ∷ rest)) (mod-lt draw (omega arith)) in
    chooses chosen (rw (e', pick_random) at e)
  where
    chooses : (c : A) → ◌≡◌ {A = Go LoadError A} (ok c) panic → ⊥
    chooses c h = cc

checked_cards-ne-panic :
    (o : Option (List Card)) (cards : List Card) (draw : ℕ)
    → checked_cards o ≡ ok cards
    → get_random_card {E = LoadError} cards draw ≢ panic
unfolding checked_cards get_random_card
checked_cards-ne-panic none cards draw h = cc
checked_cards-ne-panic (some []) cards draw h = cc
checked_cards-ne-panic (some (card ∷ rest)) cards draw h =
    subst (λ l. get_random_card {E = LoadError} l draw ≢ panic) (ok-injective h)
      (pick_random-ne-panic card rest draw)

pub load_cards-get_random_card :
    (read_cards : Bytes → Option (List Card)) (path : Bytes) (cards : List Card) (draw : ℕ)
    → load_cards read_cards path ≡ ok cards
    → get_random_card {E = LoadError} cards draw ≢ panic
unfolding load_cards
load_cards-get_random_card read_cards path cards draw h =
    checked_cards-ne-panic (read_cards (file_path path (codes "test_cards.json"))) cards draw h

-- Whatever the files hold, a card can be chosen at random once the cards are loaded. Templates are loaded
-- from an empty list as well, and then the choice of one panics.
pub load_cards-ne-panic :
    (read_cards : Bytes → Option (List Card))
    (read_templates : Bytes → Option (List IsoMsgTemplate)) (path : Bytes) (cards : List Card)
    (draw : ℕ)
    → load_cards read_cards path ≡ ok cards
    → read_templates (file_path path (codes "template_messages.json")) ≡ some []
    → (get_random_card {E = LoadError} cards draw ≢ panic)
      × (templates : List IsoMsgTemplate) × (load_templates read_templates path ≡ ok templates)
      × (random_template {E = LoadError} templates draw ≡ panic)
unfolding load_templates random_template
load_cards-ne-panic read_cards read_templates path cards draw h e = (
  load_cards-get_random_card read_cards path cards draw h,
  [],
  rw (e, load_templates) refl,
  (unfold pick_random in refl),
)
