-- ===== src/Examples/Doubles.antt =====
-- An arithmetic that rounds sums above the exact limit to even numbers, and quotients to hundredths.
use shelf_life_copilot.Prelude.{
  ℕ, ◌+◌, ◌-◌, ◌*◌, ◌/◌, ◌≤◌, min, ◌≡◌, refl, leb, if◌then◌else◌, arith,
}
use shelf_life_copilot.Models.Floats.{Floats, IsIeee, exact_limit, total}

abbrev pub rounded : ℕ → ℕ
rounded n = if leb n exact_limit then n else 2 * (n / 2)

abbrev pub doubles : Floats
doubles = record {
  add = λ a b. rounded (a + b);
  sub = λ a b. a - b;
  sum = λ xs. rounded (total xs);
  quotient = λ a b. min 100 (a * 100 / b);
  one = 100;
}

rounded_exact : (n : ℕ) → n ≤ exact_limit → rounded n ≡ n
rounded_exact n h = ground arith

pub doubles-IsIeee : IsIeee doubles
doubles-IsIeee = record {
  add_exact = λ a b h. rounded_exact (a + b) h;
  sub_exact = λ a b small h. refl;
  sum_exact = λ xs h. rounded_exact (total xs) h;
  quotient_le = λ a b pos h. omega arith;
}
