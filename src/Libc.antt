-- ===== src/Libc.antt =====
-- What the program takes from C: the type `double` with its operations, and the functions of the
-- standard library that read numbers. A literal is a number of `of_int`, or the text of a decimal
-- fraction that `atof` reads as the compiler does.
use c_chess_cli.Common.{ℕ, ◌-◌, ◌%◌, ◌^◌, Bool, suc}
use c_chess_cli.Common.Int.{ℤ, pos, negsuc}
use c_chess_cli.Str.{Bytes}

pub record Libc : Type 1 where
  pub Double : Type 0
  pub of_int : ℤ → Double
  pub add : Double → Double → Double
  pub sub : Double → Double → Double
  pub mul : Double → Double → Double
  pub div : Double → Double → Double
  pub minus : Double → Double
  pub exp : Double → Double
  pub log : Double → Double
  pub lt : Double → Double → Bool
  pub le : Double → Double → Bool
  pub to_int64 : Double → ℤ
  pub atof : Bytes → Double
  pub atoi : Bytes → ℤ
  pub atoll : Bytes → ℤ

-- The conversion of an `int64_t` to a `uint64_t`.
unfoldable pub to_uint64 : ℤ → ℕ
to_uint64 (pos n) = n % 2 ^ 64
to_uint64 (negsuc n) = (2 ^ 64 - suc n % 2 ^ 64) % 2 ^ 64
