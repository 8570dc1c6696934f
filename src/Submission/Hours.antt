-- ===== src/Submission/Hours.antt =====
-- The twelve-hour clock of the rig, converted.
use ivis_backend.Base.{
  ℕ, zero, suc, ◌+◌, ◌%◌, ◌≤◌, ◌<◌, true, some, [], ◌∷◌, ◌++◌, Text, text, trim, is_space, decimal,
  to_lower, lower_code, ◌≡◌, ap, arith,
}
use ivis_backend.Exchange.Names.{is_digit, digits}
use ivis_backend.Submission.Clock.{Meridiem, behind_hour, to_seconds, pad}

abbrev pub meridiem_text : Meridiem → Text
meridiem_text Meridiem.am = text "am"
meridiem_text Meridiem.pm = text "pm"

-- Noon and midnight are the twelfth hour.
abbrev pub hour_24 : ℕ → Meridiem → ℕ
hour_24 h Meridiem.am = h % 12
hour_24 h Meridiem.pm = h % 12 + 12

-- The rig's time `hh:mm am`.
abbrev pub rig_time : ℕ → ℕ → ℕ → Meridiem → Text
rig_time h a b m = pad h ++ 58 ∷ a ∷ b ∷ 32 ∷ meridiem_text m

-- What holds of the hours from 1 to 12.
twelve :
    (P : ℕ → Type 0)
    → P 1
    → P 2
    → P 3
    → P 4
    → P 5
    → P 6
    → P 7
    → P 8
    → P 9
    → P 10
    → P 11
    → P 12
    → (h : ℕ) → 1 ≤ h
    → h ≤ 12
    → P h
twelve P p1 p2 p3 p4 p5 p6 p7 p8 p9 p10 p11 p12 zero low high = absurd (omega arith)
twelve P p1 p2 p3 p4 p5 p6 p7 p8 p9 p10 p11 p12 (suc zero) low high = p1
twelve P p1 p2 p3 p4 p5 p6 p7 p8 p9 p10 p11 p12 (suc (suc zero)) low high = p2
twelve P p1 p2 p3 p4 p5 p6 p7 p8 p9 p10 p11 p12 (suc (suc (suc zero))) low high = p3
twelve P p1 p2 p3 p4 p5 p6 p7 p8 p9 p10 p11 p12 (suc (suc (suc (suc zero)))) low high = p4
twelve P p1 p2 p3 p4 p5 p6 p7 p8 p9 p10 p11 p12 (suc (suc (suc (suc (suc zero))))) low high = p5
twelve P p1 p2 p3 p4 p5 p6 p7 p8 p9 p10 p11 p12 (suc (suc (suc (suc (suc (suc zero)))))) low high =
    p6
twelve P p1 p2 p3 p4 p5 p6 p7 p8 p9 p10 p11 p12 (suc (suc (suc (suc (suc (suc (suc zero))))))) low
      high =
    p7
twelve P p1 p2 p3 p4 p5 p6 p7 p8 p9 p10 p11 p12 (suc (suc (suc (suc (suc (suc (suc (suc zero))))))))
      low high =
    p8
twelve P p1 p2 p3 p4 p5 p6 p7 p8 p9 p10 p11 p12
      (suc (suc (suc (suc (suc (suc (suc (suc (suc zero))))))))) low high =
    p9
twelve P p1 p2 p3 p4 p5 p6 p7 p8 p9 p10 p11 p12
      (suc (suc (suc (suc (suc (suc (suc (suc (suc (suc zero)))))))))) low high =
    p10
twelve P p1 p2 p3 p4 p5 p6 p7 p8 p9 p10 p11 p12
      (suc (suc (suc (suc (suc (suc (suc (suc (suc (suc (suc zero))))))))))) low high =
    p11
twelve P p1 p2 p3 p4 p5 p6 p7 p8 p9 p10 p11 p12
      (suc (suc (suc (suc (suc (suc (suc (suc (suc (suc (suc (suc zero)))))))))))) low high =
    p12
twelve P p1 p2 p3 p4 p5 p6 p7 p8 p9 p10 p11 p12
      (suc (suc (suc (suc (suc (suc (suc (suc (suc (suc (suc (suc (suc h))))))))))))) low high =
    absurd (omega arith)

two_digits :
    (a b : ℕ) (rest : Text)
    → is_digit a ≡ true
    → is_digit b ≡ true
    → digits 2 (a ∷ b ∷ rest) ≡ some (a ∷ b ∷ [], rest)
two_digits a b rest ha hb = ground arith

-- For an hour from 1 to 12 and two digits of minutes, the rig's time is converted to the hour of the day
-- with the same minutes and `00` seconds, and the hour is below 24.
pub to_seconds-rig_time :
    (h a b : ℕ) (m : Meridiem)
    → 1 ≤ h
    → h ≤ 12
    → is_digit a ≡ true
    → is_digit b ≡ true
    → (to_seconds (some (rig_time h a b m)) ≡ some (pad (hour_24 h m) ++ 58 ∷ a ∷ b ∷ text ":00"))
      × (hour_24 h m < 24)
unfolding to_seconds trim is_space decimal to_lower lower_code
to_seconds-rig_time h a b Meridiem.am low high ha hb = (
  twelve
      (λ k.
        to_seconds (some (rig_time k a b Meridiem.am))
        ≡ some (pad (hour_24 k Meridiem.am) ++ 58 ∷ a ∷ b ∷ text ":00"))
      (ap (behind_hour (pad 1)) (two_digits a b (32 ∷ text "am") ha hb))
      (ap (behind_hour (pad 2)) (two_digits a b (32 ∷ text "am") ha hb))
      (ap (behind_hour (pad 3)) (two_digits a b (32 ∷ text "am") ha hb))
      (ap (behind_hour (pad 4)) (two_digits a b (32 ∷ text "am") ha hb))
      (ap (behind_hour (pad 5)) (two_digits a b (32 ∷ text "am") ha hb))
      (ap (behind_hour (pad 6)) (two_digits a b (32 ∷ text "am") ha hb))
      (ap (behind_hour (pad 7)) (two_digits a b (32 ∷ text "am") ha hb))
      (ap (behind_hour (pad 8)) (two_digits a b (32 ∷ text "am") ha hb))
      (ap (behind_hour (pad 9)) (two_digits a b (32 ∷ text "am") ha hb))
      (ap (behind_hour (pad 10)) (two_digits a b (32 ∷ text "am") ha hb))
      (ap (behind_hour (pad 11)) (two_digits a b (32 ∷ text "am") ha hb))
      (ap (behind_hour (pad 12)) (two_digits a b (32 ∷ text "am") ha hb)) h low high,
  omega arith,
)
to_seconds-rig_time h a b Meridiem.pm low high ha hb = (
  twelve
      (λ k.
        to_seconds (some (rig_time k a b Meridiem.pm))
        ≡ some (pad (hour_24 k Meridiem.pm) ++ 58 ∷ a ∷ b ∷ text ":00"))
      (ap (behind_hour (pad 1)) (two_digits a b (32 ∷ text "pm") ha hb))
      (ap (behind_hour (pad 2)) (two_digits a b (32 ∷ text "pm") ha hb))
      (ap (behind_hour (pad 3)) (two_digits a b (32 ∷ text "pm") ha hb))
      (ap (behind_hour (pad 4)) (two_digits a b (32 ∷ text "pm") ha hb))
      (ap (behind_hour (pad 5)) (two_digits a b (32 ∷ text "pm") ha hb))
      (ap (behind_hour (pad 6)) (two_digits a b (32 ∷ text "pm") ha hb))
      (ap (behind_hour (pad 7)) (two_digits a b (32 ∷ text "pm") ha hb))
      (ap (behind_hour (pad 8)) (two_digits a b (32 ∷ text "pm") ha hb))
      (ap (behind_hour (pad 9)) (two_digits a b (32 ∷ text "pm") ha hb))
      (ap (behind_hour (pad 10)) (two_digits a b (32 ∷ text "pm") ha hb))
      (ap (behind_hour (pad 11)) (two_digits a b (32 ∷ text "pm") ha hb))
      (ap (behind_hour (pad 12)) (two_digits a b (32 ∷ text "pm") ha hb)) h low high,
  omega arith,
)
