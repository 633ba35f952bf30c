-- ===== src/Errs.antt =====
-- pkg/errs/errs.go, with the error values of package errors and of fmt.Errorf that the program makes.
use membrane_ai.Base.{
  ◌≡◌, refl, ◌⊎◌, inl, inr, Bool, true, false, Option, none, some, List, [], ◌∷◌, ◌++◌, Str, bytes,
  ◌==◌, ◌&&◌, not, if◌then◌else◌,
}

pub data Kind : Type 0 where
  unknown validation not_found conflict unauthorized unavailable internal : Kind

-- A Go `error` value. `nil` is the absence of an error; `typed` is `*errs.Error`, `wrapped` is made
-- by `fmt.Errorf("…%w", err)`, `joined` is a cell of `errors.Join`, and `plain` is any other error.
pub data GoError : Type 0 where
  nil : GoError
  typed : (kind : Kind) (op msg : Str) (cause : GoError) → GoError
  wrapped : (text : Str) (cause : GoError) → GoError
  joined : GoError → GoError → GoError
  plain : Str → GoError

-- `err != nil`
abbrev pub is_err : GoError → Bool
is_err nil = false
is_err (typed kind op msg cause) = true
is_err (wrapped text cause) = true
is_err (joined e rest) = true
is_err (plain msg) = true

-- `Kind.String`
unfoldable pub kind_string : Kind → Str
unfolding bytes
kind_string validation = bytes "validation"
kind_string not_found = bytes "not_found"
kind_string conflict = bytes "conflict"
kind_string unauthorized = bytes "unauthorized"
kind_string unavailable = bytes "unavailable"
kind_string internal = bytes "internal"
kind_string unknown = bytes "unknown"

-- `Error.Error`, given the text of the cause.
typed_string : Str → Str → Bool → Str → Str
unfolding bytes ◌==◌
typed_string op msg has_cause cause =
    if not (op == []) && has_cause
    then op ++ bytes ": " ++ msg ++ bytes ": " ++ cause
    else if not (op == [])
    then op ++ bytes ": " ++ msg
    else if has_cause
    then msg ++ bytes ": " ++ cause
    else msg

-- The text of an error; `errors.Join` puts each error on a line of its own.
unfoldable pub error_string : GoError → Str
unfolding typed_string bytes
error_string nil = bytes "<nil>"
error_string (typed kind op msg cause) = typed_string op msg (is_err cause) (error_string cause)
error_string (wrapped text cause) = text ++ error_string cause
error_string (joined e rest) =
    error_string e ++ (if is_err rest then bytes "\n" ++ error_string rest else [])
error_string (plain msg) = msg

-- `E` and the constructors by kind.
abbrev pub validation_err : Str → Str → GoError → GoError
validation_err op msg cause = typed validation op msg cause

abbrev pub not_found_err : Str → Str → GoError → GoError
not_found_err op msg cause = typed not_found op msg cause

abbrev pub conflict_err : Str → Str → GoError → GoError
conflict_err op msg cause = typed conflict op msg cause

abbrev pub unauthorized_err : Str → Str → GoError → GoError
unauthorized_err op msg cause = typed unauthorized op msg cause

abbrev pub unavailable_err : Str → Str → GoError → GoError
unavailable_err op msg cause = typed unavailable op msg cause

abbrev pub internal_err : Str → Str → GoError → GoError
internal_err op msg cause = typed internal op msg cause

abbrev or_else : Option Kind → Option Kind → Option Kind
or_else none k = k
or_else (some k) _ = some k

-- `errors.As(err, &e)` for `*Error`: the first typed error of the chain, depth first.
unfoldable pub find_typed : GoError → Option Kind
find_typed nil = none
find_typed (typed kind op msg cause) = some kind
find_typed (wrapped text cause) = find_typed cause
find_typed (joined e rest) = or_else (find_typed e) (find_typed rest)
find_typed (plain msg) = none

abbrev kind_or : Option Kind → Kind → Kind
kind_or none d = d
kind_or (some k) _ = k

-- `KindOf`
unfoldable pub kind_of : GoError → Kind
unfolding find_typed
kind_of e = if is_err e then kind_or (find_typed e) internal else unknown

-- `errors.Join`: nil errors are dropped.
unfoldable pub join : List GoError → GoError
join [] = nil
join (e ∷ es) = let rest = join es in if is_err e then joined e rest else rest

-- A result `(T, error)` of a function that returns the zero value with an error.
pub data Result {ℓ} (A : Type ℓ) : Type ℓ where
  ok : A → Result A
  err : GoError → Result A

infixl 5 ◌>>=◌
abbrev pub ◌>>=◌ {ℓ κ} : {A : Type ℓ} {B : Type κ} → Result A → (A → Result B) → Result B
ok a >>= f = f a
err e >>= f = err e

-- A chain that succeeds has a first step that does.
pub bind_ok {ℓ κ} :
    {A : Type ℓ} {B : Type κ} (x : Result A) (f : A → Result B) {b : B}
    → (x >>= f) ≡ ok b
    → (a : A) × (x ≡ ok a) × (f a ≡ ok b)
bind_ok (ok a) f h = (a, refl, h)
bind_ok (err e) f h = absurd (cc h)

pub Result-cases {ℓ} :
    {A : Type ℓ} (r : Result A) → ((a : A) × (r ≡ ok a)) ⊎ ((e : GoError) × (r ≡ err e))
Result-cases (ok a) = inl (a, refl)
Result-cases (err e) = inr (e, refl)
