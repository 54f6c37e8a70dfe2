-- ===== src/Ocpp/Routes.antt =====
-- ocpp/http.go: the table of paths, and what a browser makes of the forms of the index page. A browser is
-- an argument: what stands in a form's action, and the path that the request for it then has.
use smarthouse.Prelude.{
  ℕ, ℤ, Option, none, some, [], ◌∷◌, ◌++◌, Bytes, codes, Bool, true, false, not, ◌&&◌, ◌||◌, nat_eq,
  leb, if◌then◌else◌, ◌≡◌, refl, arith, ap, bytes_Eq,
}
use smarthouse.GoPath.{slash, NoSlash}
use smarthouse.GoConv.{itoa, Numeric, itoa-Numeric, itoa-element}
use smarthouse.Ocpp.Types.{CentralSystemHandler}
use smarthouse.Ocpp.Http.{HttpRequest, Check, check_reset, check_start, check_stop, post}

abbrev has_prefix : Bytes → Bytes → Bool
has_prefix [] s = true
has_prefix (p ∷ prefix) [] = false
has_prefix (p ∷ prefix) (c ∷ s) = nat_eq p c && has_prefix prefix s

-- The function that a path is given to.
pub data Route : Type 0 where
  to_index to_reset to_stop to_start : Route

-- init: the longest of the patterns that the path begins with. No two of the three begin with each other.
unfoldable pub route : Bytes → Route
route path =
    if has_prefix (codes "/reset/") path
    then to_reset
    else if has_prefix (codes "/stop/") path
    then to_stop
    else if has_prefix (codes "/start/") path
    then to_start
    else to_index

abbrev check_at : Route → CentralSystemHandler → HttpRequest → Option Check
check_at to_index h request = none
check_at to_reset h request = some (check_reset h request)
check_at to_stop h request = some (check_stop h request)
check_at to_start h request = some (check_start h request)

-- What the function does that the request is given to; `none` is the index page.
unfoldable pub routed : CentralSystemHandler → HttpRequest → Option Check
unfolding route
routed h request = check_at (route request.path) h request

-- A letter, a digit, or one of - . _ ~, which stand for themselves in a URL.
abbrev is_unreserved : ℕ → Bool
is_unreserved c =
    leb b'a' c && leb c b'z'
    || leb b'A' c && leb c b'Z'
    || leb b'0' c && leb c b'9'
    || nat_eq c b'-'
    || nat_eq c b'.'
    || nat_eq c b'_'
    || nat_eq c b'~'

abbrev all_unreserved : Bytes → Bool
all_unreserved [] = true
all_unreserved (c ∷ s) = is_unreserved c && all_unreserved s

-- An element that is not empty and does not begin with a dot.
abbrev begins : Bytes → Bool
begins [] = false
begins (c ∷ s) = is_unreserved c && not (nat_eq c b'.')

-- A name that a path can have as an element, as it stands.
abbrev pub is_name : Bytes → Bool
is_name s = begins s && all_unreserved s

-- A path of such elements.
abbrev pub is_path : Bytes → Bool
is_path [] = true
is_path (c ∷ s) = (is_unreserved c || (nat_eq c slash && begins s)) && is_path s

-- Such a path from the root on.
abbrev pub is_rooted : Bytes → Bool
is_rooted [] = false
is_rooted (c ∷ s) = nat_eq c slash && is_path (c ∷ s)

-- A browser asks for an action that is such a path as it stands.
abbrev pub IsBrowser : (Bytes → Bytes) → Type 0
IsBrowser requested = (action : Bytes) → is_rooted action ≡ true → requested action ≡ action

-- A form with this action is sent.
unfoldable pub submitted : (Bytes → Bytes) → CentralSystemHandler → Bytes → Option Check
submitted requested h action = routed h (record { method = post; path = requested action })

pub submitted_plain :
    (requested : Bytes → Bytes) (h : CentralSystemHandler) (action : Bytes)
    → IsBrowser requested
    → is_rooted action ≡ true
    → submitted requested h action ≡ routed h (record { method = post; path = action })
unfolding submitted
submitted_plain requested h action browser plain =
    ap (λ path. routed h (record { method = post; path = path })) (browser action plain)

pub is_name-NoSlash : (s : Bytes) → all_unreserved s ≡ true → NoSlash s
is_name-NoSlash [] e = tt
is_name-NoSlash (c ∷ s) e = (ground arith, is_name-NoSlash s (ground arith))

pub is_path-append :
    (s t : Bytes) → all_unreserved s ≡ true → is_path t ≡ true → is_path (s ++ t) ≡ true
is_path-append [] t e h = h
is_path-append (c ∷ s) t e h =
    let rest : is_path (s ++ t) ≡ true = is_path-append s t (ground arith) h in ground arith

Numeric-unreserved : (s : Bytes) → Numeric s → all_unreserved s ≡ true
Numeric-unreserved [] n = refl
Numeric-unreserved (c ∷ s) (d, ds) =
    let rest : all_unreserved s ≡ true = Numeric-unreserved s ds in ground arith

unreserved-is_path : (s : Bytes) → all_unreserved s ≡ true → is_path s ≡ true
unreserved-is_path [] e = refl
unreserved-is_path (c ∷ s) e =
    let rest : is_path s ≡ true = unreserved-is_path s (ground arith) in ground arith

number-begins : (z : ℤ) → begins (itoa z) ≡ true
number-begins z =
    let (c, s, e, _) = itoa-element z in
    let (first, _) = rw e at (itoa-Numeric z) in rw e (ground (arith, first))

number-is_path : (z : ℤ) → is_path (slash ∷ itoa z) ≡ true
number-is_path z =
    let digits = Numeric-unreserved (itoa z) (itoa-Numeric z) in
    let path = unreserved-is_path (itoa z) digits in let first = number-begins z in ground arith

-- The action of a form with a number, for a charge point of such a name.
pub named-is_path :
    (c : ℕ) (s : Bytes) (z : ℤ)
    → is_name (c ∷ s) ≡ true
    → is_path (slash ∷ c ∷ s ++ slash ∷ itoa z) ≡ true
named-is_path c s z name =
    let rest : is_path (c ∷ s ++ slash ∷ itoa z) ≡ true =
      is_path-append (c ∷ s) (slash ∷ itoa z) (ground arith) (number-is_path z) in
    ground arith

-- The action of a form without one.
pub rooted-is_path : (c : ℕ) (s : Bytes) → is_name (c ∷ s) ≡ true → is_path (slash ∷ c ∷ s) ≡ true
rooted-is_path c s name =
    let path : is_path (c ∷ s) ≡ true = unreserved-is_path (c ∷ s) (ground arith) in ground arith
