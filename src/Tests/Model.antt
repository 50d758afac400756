-- ===== src/Tests/Model.antt =====
-- A structure and states for the tests: integers, and arrays that are lists of writes.
use may_must_rs.Base.{
  List, String, [], bool_not, if◌then◌else◌, refl, test, test_iff, true, ◌%◌, ◌/◌, ◌∷◌, ◌≡◌,
}
use may_must_rs.Base.Int.{ltb_ℤ, pos, pos_part, ℤ, ℤ-discrete, ◌*ℤ◌, ◌+ℤ◌, ◌-ℤ◌}
use may_must_rs.Formula.Data.{Var, bool, int}
use may_must_rs.Formula.Theory.{State, Theory}

-- An array is the list of its writes, the last one first; a place never written holds 0.
abbrev pub Writes : Type 0
Writes = List (ℤ × ℤ)

unfoldable pub Writes-discrete : Discrete Writes
Writes-discrete = hlevel ℤ-discrete

abbrev pub read_write : Writes → ℤ → ℤ
read_write [] i = pos 0
read_write ((j, x) ∷ ws) i = if test (ℤ-discrete j i) then x else read_write ws i

-- Division stands for what it is on the numbers from 0 on; no test divides.
abbrev pub integers : Theory
integers = record {
  Value = ℤ;
  Array = Writes;
  of_int = λ n. n;
  of_real = λ q. q.num;
  of_bool = λ b. if b then pos 1 else pos 0;
  plus = λ a b. a +ℤ b;
  minus = λ a b. a -ℤ b;
  times = λ a b. a *ℤ b;
  quotient = λ a b. pos (pos_part a / pos_part b);
  remainder = λ a b. pos (pos_part a % pos_part b);
  negate = λ a. pos 0 -ℤ a;
  read = read_write;
  write = λ ws i x. (i, x) ∷ ws;
  same = λ a b. test (ℤ-discrete a b);
  below = ltb_ℤ;
  at_most = λ a b. bool_not (ltb_ℤ b a);
  same_array = λ a b. test (Writes-discrete a b);
}

abbrev pub int_var : String → Var
int_var name = record { name = name; sort = int }

abbrev pub bool_var : String → Var
bool_var name = record { name = name; sort = bool }

-- Every number is 3, every Boolean variable is true, every region is unwritten.
abbrev pub threes : State integers
threes = record { number = λ v. pos 3; truth = λ v. true; memory = λ r. [] }

pub same_integers : (x : ℤ) → test (ℤ-discrete x x) ≡ true
same_integers x = (test_iff (ℤ-discrete x x)).1 refl
