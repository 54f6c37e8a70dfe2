-- ===== src/Ocpp/Markup.antt =====
-- Which forms a page of HTML has, as far as ocpp/http.go writes them: the actions of its forms, in order.
use mathlib.Core.List.{append_assoc}
use smarthouse.Prelude.{
  ℕ, Option, none, some, List, [], ◌∷◌, ◌++◌, Bytes, codes, bytes_Eq, nat_eq, Bool, true, not, ◌&&◌,
  false, ◌≡◌, refl, sym, ap, ◌∙◌, arith, if◌then◌else◌,
}
use smarthouse.GoConv.{Plain}
use smarthouse.Ocpp.PageText.{form_text}

-- What stands behind a prefix.
abbrev after : Bytes → Bytes → Option Bytes
after [] s = some s
after (p ∷ prefix) [] = none
after (p ∷ prefix) (c ∷ s) = if nat_eq p c then after prefix s else none

-- A value, up to the quote that ends it.
abbrev upto_quote : Bytes → Bytes
upto_quote [] = []
upto_quote (c ∷ s) = if nat_eq c b'"' then [] else c ∷ upto_quote s

abbrev action_in : Option Bytes → List Bytes
action_in none = []
action_in (some s) = upto_quote s ∷ []

-- The action of a form that starts here.
abbrev form_at : ℕ → Bytes → List Bytes
form_at c s =
    if nat_eq c b'<' then action_in (after (codes "form method=\"post\" action=\"") s) else []

abbrev pub actions : Bytes → List Bytes
actions [] = []
actions (c ∷ s) = form_at c s ++ actions s

-- A text that brings these forms to a page, whatever follows.
pub record Reads (text : Bytes) (forms : List Bytes) : Type 0 where
  pub reads : (rest : Bytes) → actions (text ++ rest) ≡ forms ++ actions rest

pub beside :
    {s t : Bytes} {fs gs : List Bytes} → Reads s fs → Reads t gs → Reads (s ++ t) (fs ++ gs)
beside {s} {t} {fs} {gs} left right = record {
  reads = λ rest.
      ap actions (append_assoc s t rest)
      ∙ left.reads (t ++ rest)
      ∙ ap (λ hs. fs ++ hs) (right.reads rest)
      ∙ sym (append_assoc fs gs (actions rest));
}

Plain-actions : (s rest : Bytes) → Plain s → actions (s ++ rest) ≡ actions rest
Plain-actions [] rest plain = refl
Plain-actions (c ∷ s) rest ((text, value), plain) =
    let other : nat_eq c b'<' ≡ false = ground arith in rw other (Plain-actions s rest plain)

-- Data between markup brings none.
pub Plain-Reads : (s : Bytes) → Plain s → Reads s []
Plain-Reads s plain = record { reads = λ rest. Plain-actions s rest plain }

-- Markup that brings no form of its own.
abbrev pub IsBare : Bytes → Type 0
IsBare s = (rest : Bytes) → actions (s ++ rest) ≡ actions rest

pub closed : (s : Bytes) → IsBare s → Reads s []
closed s bare = record { reads = bare }

pub tagged : (s : Bytes) {t : Bytes} {gs : List Bytes} → IsBare s → Reads t gs → Reads (s ++ t) gs
tagged s {t} {gs} bare right = beside {s = s} {t = t} {fs = []} {gs = gs} (closed s bare) right

pub written : (s : Bytes) {t : Bytes} {gs : List Bytes} → Plain s → Reads t gs → Reads (s ++ t) gs
written s {t} {gs} plain right =
    beside {s = s} {t = t} {fs = []} {gs = gs} (Plain-Reads s plain) right

pub ended : {t : Bytes} {fs : List Bytes} → Reads t fs → (s : Bytes) → IsBare s → Reads (t ++ s) fs
ended {t} {fs} left s bare = record {
  reads = λ rest.
      ap actions (append_assoc t s rest) ∙ left.reads (s ++ rest) ∙ ap (λ gs. fs ++ gs) (bare rest);
}

upto_quote-Plain : (a rest : Bytes) → Plain a → upto_quote (a ++ b'"' ∷ rest) ≡ a
upto_quote-Plain [] rest plain = refl
upto_quote-Plain (c ∷ a) rest ((text, value), plain) =
    let other : nat_eq c b'"' ≡ false = ground arith in
    rw other (ap (λ s. c ∷ s) (upto_quote-Plain a rest plain))

form_start :
    (s : Bytes) → actions (codes "<form method=\"post\" action=\"" ++ s) ≡ upto_quote s ∷ actions s
form_start s = refl

pub form_text-Reads :
    (action value : Bytes)
    → Plain action
    → Plain value
    → Reads (form_text action value) (action ∷ [])
form_text-Reads action value plain label =
    let tail =
      codes "\">" ++ (codes "<input type=\"submit\" value=\"" ++ (value ++ codes "\"></form>")) in
    let behind : Reads (action ++ tail) [] = written action plain (
      tagged (codes "\">") (λ rest. refl)
        (tagged (codes "<input type=\"submit\" value=\"") (λ rest. refl)
          (written value label (closed (codes "\"></form>") (λ rest. refl))))) in
    record {
      reads = λ rest.
          ap (λ a. a ∷ actions ((action ++ tail) ++ rest))
            (ap upto_quote (append_assoc action tail rest) ∙ upto_quote-Plain action _ plain)
          ∙ ap (λ fs. action ∷ fs) (behind.reads rest);
    }

abbrev pub is_plain : Bytes → Bool
is_plain [] = true
is_plain (c ∷ s) = not (nat_eq c b'<') && not (nat_eq c b'"') && is_plain s

-- A given text is tested.
pub is_plain-Plain : (s : Bytes) → is_plain s ≡ true → Plain s
is_plain-Plain [] e = tt
is_plain-Plain (c ∷ s) e = ((ground arith, ground arith), is_plain-Plain s (ground arith))
