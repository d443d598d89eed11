-- ===== src/Ratio/Shown.antt =====
-- The text of a number, `str(n)`, holds its digits.
use corporate_actions.Prelude.{
  ℕ, zero, suc, ◌+◌, ◌-◌, ◌≡◌, refl, ap, ◌∙◌, true, List, [], ◌∷◌, arith, leb, and-true_left,
  and-true_right,
}
use corporate_actions.Prelude.Text.{codes, codes-append, is_digit}
use corporate_actions.Ratio.{digit_texts, text_at, text_of_digits, show, str}
use corporate_actions.Ratio.Digits.{all_digits, show-all_digits}

codes-text_at : (k : ℕ) → leb k 9 ≡ true → codes (text_at k digit_texts) ≡ (k + b'0') ∷ []
codes-text_at zero h = refl
codes-text_at (suc zero) h = refl
codes-text_at (suc (suc zero)) h = refl
codes-text_at (suc (suc (suc zero))) h = refl
codes-text_at (suc (suc (suc (suc zero)))) h = refl
codes-text_at (suc (suc (suc (suc (suc zero))))) h = refl
codes-text_at (suc (suc (suc (suc (suc (suc zero)))))) h = refl
codes-text_at (suc (suc (suc (suc (suc (suc (suc zero))))))) h = refl
codes-text_at (suc (suc (suc (suc (suc (suc (suc (suc zero)))))))) h = refl
codes-text_at (suc (suc (suc (suc (suc (suc (suc (suc (suc zero))))))))) h = refl
codes-text_at (suc (suc (suc (suc (suc (suc (suc (suc (suc (suc k)))))))))) h =
    absurd (ground arith)

codes-digit : (c : ℕ) → is_digit c ≡ true → codes (text_at (c - b'0') digit_texts) ≡ c ∷ []
codes-digit c h = codes-text_at (c - b'0') (ground arith) ∙ ap (λ (k : ℕ). k ∷ []) (ground arith)

codes-text_of_digits : (s : List ℕ) → all_digits s ≡ true → codes (text_of_digits s) ≡ s
codes-text_of_digits [] h = refl
codes-text_of_digits (c ∷ s) h =
    codes-append (text_at (c - b'0') digit_texts) (text_of_digits s)
    ∙ rw
        (
          codes-digit c (and-true_left (is_digit c) (all_digits s) h),
          codes-text_of_digits s (and-true_right (is_digit c) (all_digits s) h),
        )
        refl

-- The characters of `str(n)` are the digits of the number.
pub codes-str : (n : ℕ) → codes (str n) ≡ show n
unfolding str
codes-str n = codes-text_of_digits (show n) (show-all_digits n)
