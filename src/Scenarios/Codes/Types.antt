-- ===== src/Scenarios/Codes/Types.antt =====
-- The codec of the program's records.
use Prim.Native.Nat.{Ordering, compare}
use Prim.Native.Char.{Char, char, code, nul, IsLt}
use go_prod22_go_project.Prelude.{
  ℕ, zero, suc, ℤ, pos, negsuc, String, Option, none, some, Bool, true, false, ◌≡◌, refl, ap, List,
  [], ◌∷◌, eqb, arith, if◌then◌else◌,
}
use go_prod22_go_project.Domain.Status.{TaskStatus, ReleaseStatus, task_rank, release_rank}
use go_prod22_go_project.Scenarios.Codes.{Code, number, pair, through, list}

-- Integers by their two halves.
abbrev to_int : ℕ × ℕ → ℤ
to_int (zero, n) = pos n
to_int (suc m, n) = negsuc n

abbrev of_int : ℤ → ℕ × ℕ
of_int (pos n) = (0, n)
of_int (negsuc n) = (1, n)

pub int_back : (z : ℤ) → to_int (of_int z) ≡ z
int_back (pos n) = refl
int_back (negsuc n) = refl

unfoldable pub integer : Code ℤ
integer = through (pair number number) to_int of_int int_back

abbrev to_bool : ℕ → Bool
to_bool zero = false
to_bool (suc n) = true

abbrev of_bool : Bool → ℕ
of_bool false = 0
of_bool true = 1

pub bool_back : (b : Bool) → to_bool (of_bool b) ≡ b
bool_back true = refl
bool_back false = refl

unfoldable pub boolean : Code Bool
boolean = through number to_bool of_bool bool_back

-- Whether a number is a character's, by the comparisons that say so.
abbrev less : (o : Ordering) → Option (IsLt o)
less Ordering.lt = some tt
less Ordering.eq = none
less Ordering.gt = none

abbrev Both : Ordering → Ordering → Type 0
Both Ordering.lt o = IsLt o
Both Ordering.eq _ = ⊥
Both Ordering.gt _ = ⊥

abbrev Scalar : Ordering → Ordering → Ordering → Type 0
Scalar Ordering.lt _ _ = Unit
Scalar Ordering.eq o p = Both o p
Scalar Ordering.gt o p = Both o p

abbrev both? : (o p : Ordering) → Option (Both o p)
both? Ordering.lt o = less o
both? Ordering.eq o = none
both? Ordering.gt o = none

abbrev scalar? : (o p q : Ordering) → Option (Scalar o p q)
scalar? Ordering.lt p q = some tt
scalar? Ordering.eq p q = both? p q
scalar? Ordering.gt p q = both? p q

less_lem : (o : Ordering) (x : IsLt o) → less o ≡ some x
less_lem Ordering.lt x = refl
less_lem Ordering.eq x = elim x [ ]
less_lem Ordering.gt x = elim x [ ]

both_lem : (o p : Ordering) (x : Both o p) → both? o p ≡ some x
both_lem Ordering.lt p x = less_lem p x
both_lem Ordering.eq p x = elim x [ ]
both_lem Ordering.gt p x = elim x [ ]

scalar_lem : (o p q : Ordering) (x : Scalar o p q) → scalar? o p q ≡ some x
scalar_lem Ordering.lt p q x = refl
scalar_lem Ordering.eq p q x = both_lem p q x
scalar_lem Ordering.gt p q x = both_lem p q x

abbrev char_or :
    (n : ℕ) → Option (Scalar (compare n 55296) (compare 57343 n) (compare n 1114112)) → Char
char_or n none = nul
char_or n (some x) = char n x

abbrev to_char : ℕ → Char
to_char n = char_or n (scalar? (compare n 55296) (compare 57343 n) (compare n 1114112))

char_back : (c : Char) → to_char (code c) ≡ c
char_back (char n x) =
    ap (char_or n) (scalar_lem (compare n 55296) (compare 57343 n) (compare n 1114112) x)

abbrev to_text : List ℕ → String
to_text [] = ""
to_text (n ∷ ns) = String.◌∷◌ (to_char n) (to_text ns)

abbrev of_text : String → List ℕ
of_text String.[] = []
of_text (String.◌∷◌ c s) = code c ∷ of_text s

pub text_back : (s : String) → to_text (of_text s) ≡ s
text_back String.[] = refl
text_back (String.◌∷◌ c s) = rw (char_back c, text_back s) refl

unfoldable pub text : Code String
text = through (list number) to_text of_text text_back

abbrev to_release_status : ℕ → ReleaseStatus
to_release_status n =
    if eqb n 0
    then ReleaseStatus.queued
    else if eqb n 1
    then ReleaseStatus.preflight
    else if eqb n 2
    then ReleaseStatus.installing
    else if eqb n 3
    then ReleaseStatus.awaiting
    else if eqb n 4
    then ReleaseStatus.completed
    else if eqb n 5
    then ReleaseStatus.paused
    else if eqb n 6
    then ReleaseStatus.rollback_pending
    else if eqb n 7
    then ReleaseStatus.rolled_back
    else ReleaseStatus.failed

pub release_status_back : (s : ReleaseStatus) → to_release_status (release_rank s) ≡ s
release_status_back s = ground arith

unfoldable pub release_status : Code ReleaseStatus
release_status = through number to_release_status release_rank release_status_back

abbrev to_task_status : ℕ → TaskStatus
to_task_status n =
    if eqb n 0
    then TaskStatus.queued
    else if eqb n 1
    then TaskStatus.leased
    else if eqb n 2
    then TaskStatus.installing
    else if eqb n 3
    then TaskStatus.awaiting
    else if eqb n 4
    then TaskStatus.completed
    else if eqb n 5
    then TaskStatus.rejected
    else if eqb n 6
    then TaskStatus.failed
    else if eqb n 7
    then TaskStatus.rollback_queued
    else if eqb n 8
    then TaskStatus.rolling_back
    else TaskStatus.rolled_back

pub task_status_back : (s : TaskStatus) → to_task_status (task_rank s) ≡ s
task_status_back s = ground arith

unfoldable pub task_status : Code TaskStatus
task_status = through number to_task_status task_rank task_status_back
