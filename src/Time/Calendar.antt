-- ===== src/Time/Calendar.antt =====
-- `IS_LEAP`, `days_in_month` and `days_since_epoch` (`headers/time/helpers_time.h`).
use reddyos_osdev.Base.{
  ℕ, zero, suc, ◌+◌, ◌-◌, ◌*◌, ◌/◌, ◌%◌, ◌≤◌, ◌<◌, ◌≡◌, ◌∙◌, refl, ap, sym, subst, some-injective,
  Bool, Option, none, some, List, [], ◌∷◌, ◌==◌, ltb, not, ◌&&◌, ◌||◌, if◌then◌else◌, arith,
  get_elem?, length, Bool-cases, inl, inr,
}
use reddyos_osdev.Base.Int.{ℤ, pos, sub_ℕ, ◌+ℤ◌}

unfoldable pub is_leap : ℕ → Bool
is_leap y = (y % 4 == 0 && not (y % 100 == 0)) || (y % 400 == 0)

abbrev pub days_in_month : List ℕ
days_in_month = 31 ∷ 28 ∷ 31 ∷ 30 ∷ 31 ∷ 30 ∷ 31 ∷ 31 ∷ 30 ∷ 31 ∷ 30 ∷ 31 ∷ []

-- `for (y = 1970; y < year; y++)`, by the years passed.
unfoldable pub days_of_years : ℕ → ℕ
days_of_years zero = 0
days_of_years (suc n) = days_of_years n + (if is_leap (1970 + n) then 366 else 365)

-- A read behind the end of the table is not defined.
unfoldable pub month_length : ℕ → ℕ → Option ℕ
month_length year m = if m == 2 && is_leap year then some 29 else get_elem? days_in_month (m - 1)

-- `for (m = 1; m < month; m++)`, by the months passed.
unfoldable pub days_of_months : ℕ → ℕ → Option ℕ
days_of_months year zero = some 0
days_of_months year (suc n) = elim (days_of_months year n) [
  | none ↦ none
  | some d ↦ elim (month_length year (suc n)) [ none ↦ none | some l ↦ some (d + l) ]
]

unfoldable pub days_since_epoch : ℕ → ℕ → ℕ → Option ℤ
days_since_epoch year month day = elim (days_of_months year (month - 1)) [
  | none ↦ none
  | some d ↦ some (pos (days_of_years (year - 1970) + d) +ℤ sub_ℕ day 1)
]

-- The leap years up to `y` by the Gregorian rule.
abbrev pub leaps_to : ℕ → ℕ
leaps_to y = y / 4 + y / 400 - y / 100

-- The days before 1 January of a year from 1970 on are 365 for each year passed and one for each
-- leap year passed, counted by the Gregorian rule.
pub days_of_years_lem : (n : ℕ) → days_of_years n + 477 ≡ 365 * n + leaps_to (1969 + n)
unfolding days_of_years is_leap
days_of_years_lem zero = refl
days_of_years_lem (suc n) = ground (arith, days_of_years_lem n)

pub record Date : Type 0 where
  pub year : ℕ
  pub month : ℕ
  pub day : ℕ

-- The days of a month by the Gregorian calendar; February has one more if the year is counted among the
-- leap years.
abbrev pub month_days : ℕ → ℕ → ℕ
month_days year month =
    if month == 2
    then 28 + (leaps_to year - leaps_to (year - 1))
    else if month == 4 || month == 6 || month == 9 || month == 11
    then 30
    else 31

-- A date of the Gregorian calendar from 1970 on.
pub record IsDate (t : Date) : Type 0 where
  pub epoch : 1970 ≤ t.year
  pub from : 1 ≤ t.month
  pub to : t.month ≤ 12
  pub first : 1 ≤ t.day
  pub last : t.day ≤ month_days t.year t.month

-- The calendar's next day.
unfoldable pub next_day : Date → Date
next_day t =
    if ltb t.day (month_days t.year t.month)
    then record t { day = t.day + 1 }
    else if ltb t.month 12
    then record { year = t.year; month = t.month + 1; day = 1 }
    else record { year = t.year + 1; month = 1; day = 1 }

get_elem?_total {ℓ} :
    {A : Type ℓ} (xs : List A) (i : ℕ) → i < length xs → (a : A) × (get_elem? xs i ≡ some a)
get_elem?_total [] i h = absurd (omega arith)
get_elem?_total (x ∷ xs) zero h = (x, refl)
get_elem?_total (x ∷ xs) (suc i) h = get_elem?_total xs i (omega arith)

month_length_total : (year m : ℕ) → 1 ≤ m → m ≤ 12 → (l : ℕ) × (month_length year m ≡ some l)
unfolding month_length
month_length_total year m lo hi = elim (Bool-cases (m == 2 && is_leap year)) [
  | inl leap ↦ (29, rw leap)
  | inr plain ↦ let r = get_elem?_total days_in_month (m - 1) (omega arith) in (r.0, rw plain r.1)
]

days_of_months_step :
    (year n d l : ℕ)
    → days_of_months year n ≡ some d
    → month_length year (suc n) ≡ some l
    → days_of_months year (suc n) ≡ some (d + l)
unfolding days_of_months
days_of_months_step year n d l h k = ground (arith, h, k)

days_of_months_total : (year n : ℕ) → n ≤ 12 → (d : ℕ) × (days_of_months year n ≡ some d)
days_of_months_total year zero h = (0, unfold days_of_months in refl)
days_of_months_total year (suc n) h =
    let (d, run) = days_of_months_total year n (omega arith) in
    let (l, len) = month_length_total year (suc n) (omega arith) (omega arith) in
    (d + l, days_of_months_step year n d l run len)

february : (year : ℕ) → month_length year 2 ≡ some (if is_leap year then 29 else 28)
unfolding month_length
february year = ground arith

-- The twelve months make up the year.
days_of_months_year : (year : ℕ) → days_of_months year 12 ≡ some (if is_leap year then 366 else 365)
unfolding month_length
days_of_months_year year =
    let step = days_of_months_step year in
    let m1 = step 0 0 31 (unfold days_of_months in refl) refl in
    let m2 = step 1 31 (if is_leap year then 29 else 28) m1 (february year) in
    let f = 31 + (if is_leap year then 29 else 28) in
    let m3 = step 2 (f) 31 m2 refl in
    let m4 = step 3 (f + 31) 30 m3 refl in
    let m5 = step 4 (f + 31 + 30) 31 m4 refl in
    let m6 = step 5 (f + 31 + 30 + 31) 30 m5 refl in
    let m7 = step 6 (f + 31 + 30 + 31 + 30) 31 m6 refl in
    let m8 = step 7 (f + 31 + 30 + 31 + 30 + 31) 31 m7 refl in
    let m9 = step 8 (f + 31 + 30 + 31 + 30 + 31 + 31) 30 m8 refl in
    let m10 = step 9 (f + 31 + 30 + 31 + 30 + 31 + 31 + 30) 31 m9 refl in
    let m11 = step 10 (f + 31 + 30 + 31 + 30 + 31 + 31 + 30 + 31) 30 m10 refl in
    let m12 = step 11 (f + 31 + 30 + 31 + 30 + 31 + 31 + 30 + 31 + 30) 31 m11 refl in
    m12 ∙ ap some (ground arith)

days_since_epoch_parts :
    (year month day c : ℕ)
    → 1 ≤ day
    → days_of_months year (month - 1) ≡ some c
    → days_since_epoch year month day ≡ some (pos (days_of_years (year - 1970) + c + (day - 1)))
unfolding days_since_epoch ◌+ℤ◌
days_since_epoch_parts year month day c h e = ground (arith, e)

next_month :
    (year month c len : ℕ)
    → 1 ≤ month
    → days_of_months year (month - 1) ≡ some c
    → month_length year month ≡ some len
    → days_since_epoch year (month + 1) 1 ≡ some (pos (days_of_years (year - 1970) + c + len))
next_month year zero c len h run l = absurd (omega arith)
next_month year (suc k) c len h run l =
    let before : days_of_months year k ≡ some c =
      subst (λ n. days_of_months year n ≡ some c) (omega arith) run in
    let after : days_of_months year (suc k + 1 - 1) ≡ some (c + len) =
      ap (days_of_months year) (omega arith) ∙ days_of_months_step year k c len before l in
    days_since_epoch_parts year (suc k + 1) 1 (c + len) (omega arith) after
    ∙ ap (λ n. some (pos n)) (omega arith)

year_length :
    (year c len : ℕ)
    → days_of_months year 11 ≡ some c
    → month_length year 12 ≡ some len
    → c + len ≡ (if is_leap year then 366 else 365)
year_length year c len run l =
    some-injective _ _ (sym (days_of_months_step year 11 c len run l) ∙ days_of_months_year year)

years_step :
    (year : ℕ)
    → 1970 ≤ year
    → days_of_years (year + 1 - 1970)
      ≡ days_of_years (year - 1970) + (if is_leap year then 366 else 365)
unfolding days_of_years
years_step year h =
    ap days_of_years {y = suc (year - 1970)} (omega arith)
    ∙ ap (λ n. days_of_years (year - 1970) + (if is_leap n then 366 else 365)) (omega arith)

next_year :
    (year month c len : ℕ)
    → 1970 ≤ year
    → month ≡ 12
    → days_of_months year (month - 1) ≡ some c
    → month_length year month ≡ some len
    → days_since_epoch (year + 1) 1 1 ≡ some (pos (days_of_years (year - 1970) + c + len))
next_year year month c len e m run l =
    let run' : days_of_months year 11 ≡ some c =
      subst (λ n. days_of_months year n ≡ some c) (omega arith) run in
    let l' = subst (λ n. month_length year n ≡ some len) m l in
    days_since_epoch_parts (year + 1) 1 1 0 (omega arith) (unfold days_of_months in refl)
    ∙ ap (λ n. some (pos n)) (omega (arith, years_step year e, year_length year c len run' l'))

leap_february : (year : ℕ) → 1 ≤ year → (if is_leap year then 29 else 28) ≡ month_days year 2
unfolding is_leap
leap_february year h = ground (arith, h)

-- The table of the code, with its leap years, is the calendar's.
month_length_lem :
    (year m : ℕ) → 1 ≤ year → 1 ≤ m → m ≤ 12 → month_length year m ≡ some (month_days year m)
unfolding month_length
month_length_lem year zero y lo hi = absurd (omega (arith, lo))
month_length_lem year (suc zero) y lo hi = refl
month_length_lem year (suc (suc zero)) y lo hi = february year ∙ ap some (leap_february year y)
month_length_lem year (suc (suc (suc zero))) y lo hi = refl
month_length_lem year (suc (suc (suc (suc zero)))) y lo hi = refl
month_length_lem year (suc (suc (suc (suc (suc zero))))) y lo hi = refl
month_length_lem year (suc (suc (suc (suc (suc (suc zero)))))) y lo hi = refl
month_length_lem year (suc (suc (suc (suc (suc (suc (suc zero))))))) y lo hi = refl
month_length_lem year (suc (suc (suc (suc (suc (suc (suc (suc zero)))))))) y lo hi = refl
month_length_lem year (suc (suc (suc (suc (suc (suc (suc (suc (suc zero))))))))) y lo hi = refl
month_length_lem year (suc (suc (suc (suc (suc (suc (suc (suc (suc (suc zero)))))))))) y lo hi =
    refl
month_length_lem year (suc (suc (suc (suc (suc (suc (suc (suc (suc (suc (suc zero))))))))))) y lo
      hi =
    refl
month_length_lem year (suc (suc (suc (suc (suc (suc (suc (suc (suc (suc (suc (suc zero)))))))))))) y
      lo hi =
    refl
month_length_lem year
      (suc (suc (suc (suc (suc (suc (suc (suc (suc (suc (suc (suc (suc m))))))))))))) y lo hi =
    absurd (omega (arith, hi))

-- Counting is correct from one day to the next: for every date of the Gregorian calendar from 1970 on,
-- the number of the calendar's next day is the number of the day, plus one.
pub days_since_epoch-next_day :
    (t : Date)
    → IsDate t
    → (d : ℕ) × (days_since_epoch t.year t.month t.day ≡ some (pos d))
      × (days_since_epoch (next_day t).year (next_day t).month (next_day t).day
          ≡ some (pos (d + 1)))
unfolding next_day
days_since_epoch-next_day t v =
    let len = month_days t.year t.month in
    let table = month_length_lem t.year t.month (omega (arith, v.epoch)) v.from v.to in
    let (c, run) = days_of_months_total t.year (t.month - 1) (omega arith) in
    let here = days_since_epoch_parts t.year t.month t.day c v.first run in
    let y = days_of_years (t.year - 1970) in
    (
      y + c + (t.day - 1),
      here,
      elim (Bool-cases (ltb t.day len)) [
        | inl inside ↦ rw inside (
            days_since_epoch_parts t.year t.month (t.day + 1) c (omega arith) run
            ∙ ap (λ n. some (pos n)) (omega arith))
        | inr last ↦ elim (Bool-cases (ltb t.month 12)) [
          | inl month_left ↦
              rw (last, month_left)
                (next_month t.year t.month c len v.from run table
                  ∙ ap (λ n. some (pos n)) (ground arith))
          | inr year_ends ↦
              rw (last, year_ends)
                (next_year t.year t.month c len v.epoch (ground arith) run table
                  ∙ ap (λ n. some (pos n)) (ground arith))
        ]
      ],
    )
