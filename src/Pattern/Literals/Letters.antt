-- ===== src/Pattern/Literals/Letters.antt =====
-- The letters of directives without an argument are none of the other characters of a directive.
use chucho.Base.{ℕ, ◌≡◌, false, some, arith, ◌==◌}
use chucho.TextUtil.{is_digit}
use chucho.Pattern.{Kind, simple_kind}

pub no_letter :
    (c : ℕ) (k : Kind)
    → simple_kind c ≡ some k
    → ((c == b'%') ≡ false) × ((c == b'-') ≡ false) × ((c == b'.') ≡ false) × (is_digit c ≡ false)
unfolding simple_kind is_digit
no_letter c k h = ground arith
