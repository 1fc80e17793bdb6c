-- ===== src/DelayHist/Laws.antt =====
-- The delay history: its well-formedness, the value that it reports and the delay that a sample adds.
use go_libutp.Prelude.{
  ℕ, zero, suc, ◌+◌, ◌*◌, ◌%◌, ◌^◌, ◌≤◌, ◌<◌, ◌≡◌, refl, ◌∙◌, ◌⊎◌, inl, inr, List, [], ◌∷◌, map,
  ltb, min, replicate, get_or, set, length, length-set, length-map, add32, sub64, arith, Bool-cases,
  leb,
}
use go_libutp.DelayHist.{
  DelayHist, cur_delay_size, delay_base_history, uint_max, clear, shift, initialize, lower_bases,
  record_delay, lowest, step_base, add_sample, smallest, get_value,
}

-- Every entry is a `uint32`.
abbrev pub AllWords : List ℕ → Type 0
AllWords [] = Unit {0}
AllWords (x ∷ xs) = (x < 2 ^ 32) × AllWords xs

pub record IsValid (h : DelayHist) : Type 0 where
  pub base_word : h.delay_base < 2 ^ 32
  pub cur_cells : length h.cur_delay_hist ≡ cur_delay_size
  pub cur_index : h.cur_delay_idx < cur_delay_size
  pub cur_words : AllWords h.cur_delay_hist
  pub base_cells : length h.delay_base_hist ≡ delay_base_history
  pub base_index : h.delay_base_idx < delay_base_history
  pub base_words : AllWords h.delay_base_hist

pub AllWords-set : (xs : List ℕ) (i v : ℕ) → v < 2 ^ 32 → AllWords xs → AllWords (set xs i v)
AllWords-set [] i v h a = tt
AllWords-set (x ∷ xs) zero v h a = (h, a.1)
AllWords-set (x ∷ xs) (suc i) v h a = (a.0, AllWords-set xs i v h a.1)

AllWords-replicate : (n v : ℕ) → v < 2 ^ 32 → AllWords (replicate n v)
AllWords-replicate zero v h = tt
AllWords-replicate (suc n) v h = (h, AllWords-replicate n v h)

AllWords-shift : (xs : List ℕ) (o : ℕ) → AllWords (map (λ x. add32 x o) xs)
AllWords-shift [] o = tt
AllWords-shift (x ∷ xs) o = (omega arith, AllWords-shift xs o)

pub AllWords-get_or : (xs : List ℕ) (i : ℕ) → AllWords xs → get_or xs i 0 < 2 ^ 32
AllWords-get_or [] i a = omega arith
AllWords-get_or (x ∷ xs) zero a = a.0
AllWords-get_or (x ∷ xs) (suc i) a = AllWords-get_or xs i a.1

lowest-word : (xs : List ℕ) (base : ℕ) → base < 2 ^ 32 → AllWords xs → lowest base xs < 2 ^ 32
unfolding lowest
lowest-word [] base h a = h
lowest-word (x ∷ xs) base h a = lowest-word xs _ (ground arith) a.1

pub clear-IsValid : (ms : ℕ) → IsValid (clear ms)
unfolding clear
clear-IsValid ms = omega arith

pub shift-IsValid : (h : DelayHist) (o : ℕ) → IsValid h → IsValid (shift h o)
unfolding shift
shift-IsValid h o v = record {
  base_word = omega arith;
  cur_cells = v.cur_cells;
  cur_index = v.cur_index;
  cur_words = v.cur_words;
  base_cells = length-map h.delay_base_hist (λ x. add32 x o) ∙ v.base_cells;
  base_index = v.base_index;
  base_words = AllWords-shift h.delay_base_hist o;
}

pub initialize-IsValid : (h : DelayHist) (s : ℕ) → s < 2 ^ 32 → IsValid h → IsValid (initialize h s)
unfolding initialize
initialize-IsValid h s hs v = elim (Bool-cases h.delay_base_initialized) [
  | inl e ↦ simp e v
  | inr e ↦ simp e (record {
    base_word = hs;
    cur_cells = v.cur_cells;
    cur_index = v.cur_index;
    cur_words = v.cur_words;
    base_cells = refl;
    base_index = v.base_index;
    base_words = AllWords-replicate delay_base_history s hs;
  })
]

pub lower_bases-IsValid :
    (h : DelayHist) (s : ℕ) → s < 2 ^ 32 → IsValid h → IsValid (lower_bases h s)
unfolding lower_bases
lower_bases-IsValid h s hs v = record {
  base_word = ground arith;
  cur_cells = v.cur_cells;
  cur_index = v.cur_index;
  cur_words = v.cur_words;
  base_cells = ground (arith, length-set h.delay_base_hist h.delay_base_idx s);
  base_index = v.base_index;
  base_words = ground (arith, AllWords-set h.delay_base_hist h.delay_base_idx s hs v.base_words);
}

pub record_delay-IsValid : (h : DelayHist) (s : ℕ) → IsValid h → IsValid (record_delay h s)
unfolding record_delay
record_delay-IsValid h s v = record {
  base_word = v.base_word;
  cur_cells = length-set h.cur_delay_hist h.cur_delay_idx _ ∙ v.cur_cells;
  cur_index = omega arith;
  cur_words = AllWords-set h.cur_delay_hist h.cur_delay_idx _ (omega arith) v.cur_words;
  base_cells = v.base_cells;
  base_index = v.base_index;
  base_words = v.base_words;
}

step_base-IsValid : (h : DelayHist) (s ms : ℕ) → s < 2 ^ 32 → IsValid h → IsValid (step_base h s ms)
unfolding step_base
step_base-IsValid h s ms hs v = elim (Bool-cases (ltb (60 * 1000) (sub64 ms h.delay_base_time))) [
  | inl e ↦ rw e (record {
    base_word = lowest-word hist (get_or hist 0 0) (AllWords-get_or hist 0 words) words;
    cur_cells = v.cur_cells;
    cur_index = v.cur_index;
    cur_words = v.cur_words;
    base_cells = length-set h.delay_base_hist idx s ∙ v.base_cells;
    base_index = omega arith;
    base_words = words;
  })
  | inr e ↦ rw e v
]
  where
    idx : ℕ
    idx = (h.delay_base_idx + 1) % delay_base_history

    hist : List ℕ
    hist = set h.delay_base_hist idx s

    words : AllWords hist
    words = AllWords-set h.delay_base_hist idx s hs v.base_words

-- A sample keeps the history well formed: both rings keep their sizes, both indices stay inside, and
-- every entry stays a 32-bit word.
pub add_sample-IsValid :
    (h : DelayHist) (s ms : ℕ) → s < 2 ^ 32 → IsValid h → IsValid (add_sample h s ms)
unfolding add_sample
add_sample-IsValid h s ms hs v =
    step_base-IsValid _ s ms hs
      (record_delay-IsValid _ s (lower_bases-IsValid _ s hs (initialize-IsValid h s hs v)))

smallest-le : (xs : List ℕ) (v : ℕ) → smallest v xs ≤ v
unfolding smallest
smallest-le [] v = omega arith
smallest-le (x ∷ xs) v = omega (arith, smallest-le xs (min x v))

smallest-le-get_or : (xs : List ℕ) (v i : ℕ) → i < length xs → smallest v xs ≤ get_or xs i 0
unfolding smallest
smallest-le-get_or [] v i h = elim h [ ]
smallest-le-get_or (x ∷ xs) v zero h = omega (arith, smallest-le xs (min x v))
smallest-le-get_or (x ∷ xs) v (suc i) h = smallest-le-get_or xs (min x v) i (omega arith)

smallest-attained :
    (xs : List ℕ) (v : ℕ)
    → (smallest v xs ≡ v) ⊎ ((i : ℕ) × (i < length xs) × (smallest v xs ≡ get_or xs i 0))
unfolding smallest
smallest-attained [] v = inl refl
smallest-attained (x ∷ xs) v = elim (smallest-attained xs (min x v)) [
  | inr (i, h, e) ↦ inr (suc i, omega arith, e)
  | inl e ↦ elim (Bool-cases (leb x v)) [
    | inl low ↦ inr (0, omega arith, ground arith)
    | inr high ↦ inl (ground arith)
  ]
]

-- The reported value is the smallest of the current delays: at most each of the three, and equal to
-- one of them.
pub get_value-min :
    (h : DelayHist)
    → IsValid h
    → ((i : ℕ) → i < cur_delay_size → get_value h ≤ get_or h.cur_delay_hist i 0)
      × ((i : ℕ) × (i < cur_delay_size) × (get_value h ≡ get_or h.cur_delay_hist i 0))
unfolding get_value
get_value-min h v = (
  λ i hi. smallest-le-get_or h.cur_delay_hist uint_max i (omega (arith, v.cur_cells)),
  elim (smallest-attained h.cur_delay_hist uint_max) [
    | inr (i, hi, e) ↦ (i, omega (arith, v.cur_cells), e)
    | inl e ↦ (
      0,
      omega arith,
      omega (
        arith,
        e,
        smallest-le-get_or h.cur_delay_hist uint_max 0 (omega (arith, v.cur_cells)),
        AllWords-get_or h.cur_delay_hist 0 v.cur_words,
      ),
    )
  ],
)
