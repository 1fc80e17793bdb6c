-- ===== src/Socket/Extension/Chain.antt =====
-- The chain of extensions that a sender writes, read back; and what any bytes at all are read as.
use go_libutp.Prelude.{
  ℕ, zero, suc, ◌<◌, ◌≤◌, ◌≡◌, ◌≢◌, refl, ap, sym, ◌∙◌, Bool, false, ◌||◌, ◌&&◌, not, Option, none,
  some, List, [], ◌∷◌, ◌++◌, ltb, ◌==◌, if◌then◌else◌, get_or, take, drop, length, length-append,
  arith, inl, inr, Bool-cases,
}
use go_libutp.Socket.Extension.{
  Selack, Found, Unpacked, refused, payload, read_extension, unpack_loop, unpack,
}

-- The extensions of a packet, each with its kind and its body.
abbrev pub Extensions : Type 0
Extensions = List (ℕ × List ℕ)

-- The kind that the header or the extension before names.
abbrev pub first_kind : Extensions → ℕ
first_kind [] = 0
first_kind ((kind, body) ∷ xs) = kind

-- The bytes of the extensions, followed by the payload.
abbrev pub write_chain : Extensions → List ℕ → List ℕ
write_chain [] rest = rest
write_chain ((kind, body) ∷ xs) rest = first_kind xs ∷ length body ∷ (body ++ write_chain xs rest)

-- Each kind is a number other than 0, and extension bits are eight bytes.
abbrev pub IsChain : Extensions → Type 0
IsChain [] = Unit {0}
IsChain ((kind, body) ∷ xs) =
    (kind ≢ 0) × ((kind == 2 && not (length body == 8)) ≡ false) × IsChain xs

-- What the loop finds in them, from what it has found.
abbrev pub find : Extensions → List ℕ → Found → Found
find [] rest found = found
find ((kind, body) ∷ xs) rest found =
    find xs rest (read_extension kind (length body) (body ++ write_chain xs rest) found)

drop-append : {A : Type 0} → (xs ys : List A) → drop (length xs) (xs ++ ys) ≡ ys
drop-append [] ys = refl
drop-append (x ∷ xs) ys = drop-append xs ys

fits : {A : Type 0} → (xs ys : List A) → ltb (length (xs ++ ys)) (length xs) ≡ false
fits xs ys = ground (arith, length-append xs ys)

not_short : {A : Type 0} → (x y : A) (xs : List A) → ltb (length (x ∷ y ∷ xs)) 2 ≡ false
not_short x y xs = ground arith

unpack_loop-write_chain :
    (fuel kind : ℕ) (body : List ℕ) (xs : Extensions) (rest : List ℕ) (found : Found)
    → IsChain ((kind, body) ∷ xs)
    → length xs < fuel
    → unpack_loop fuel kind (write_chain ((kind, body) ∷ xs) rest) found
      ≡ payload (find ((kind, body) ∷ xs) rest found) rest
unfolding unpack_loop
unpack_loop-write_chain zero kind body xs rest found c h = absurd (omega arith)
unpack_loop-write_chain (suc fuel) kind body [] rest found (ne, bits, c) h =
    rw (not_short 0 (length body) (body ++ rest), fits body rest, bits, drop-append body rest) refl
unpack_loop-write_chain (suc fuel) kind body ((next, more) ∷ xs) rest found (ne, bits, c) h =
    let tail = write_chain ((next, more) ∷ xs) rest in
    let nonzero : (next == 0) ≡ false = other next c.0 in
    rw
      (
        not_short next (length body) (body ++ tail),
        fits body tail,
        bits,
        drop-append body tail,
        nonzero,
      )
      (unpack_loop-write_chain fuel next more xs rest _ c (omega arith))
  where
    other : (k : ℕ) → k ≢ 0 → (k == 0) ≡ false
    other k ne = ground arith

length-chain : (xs : Extensions) (rest : List ℕ) → length xs ≤ length (write_chain xs rest)
length-chain [] rest = omega arith
length-chain ((kind, body) ∷ xs) rest =
    omega (arith, length-chain xs rest, length-append body (write_chain xs rest))

unpack-find :
    (xs : Extensions) (rest : List ℕ)
    → IsChain xs
    → unpack (first_kind xs) (write_chain xs rest)
      ≡ payload (find xs rest (record { selack = none; extensions = none })) rest
unfolding unpack
unpack-find [] rest c = refl
unpack-find ((kind, body) ∷ xs) rest c =
    let nonzero : (kind == 0) ≡ false = other kind c.0 in
    rw nonzero (
      unpack_loop-write_chain (suc (length (write_chain ((kind, body) ∷ xs) rest))) kind body xs
        rest (record { selack = none; extensions = none }) c
        (omega (arith, length-chain ((kind, body) ∷ xs) rest)))
  where
    other : (k : ℕ) → k ≢ 0 → (k == 0) ≡ false
    other k ne = ground arith

-- The later one, if there is one.
abbrev pub or_later : {A : Type 0} → Option A → Option A → Option A
or_later earlier none = earlier
or_later earlier (some x) = some x

-- The last selective acknowledgment of a chain (an extension of kind 1): as many bytes as its body has,
-- from its body on.
abbrev pub last_selack : Extensions → List ℕ → Option Selack
last_selack [] rest = none
last_selack ((kind, body) ∷ xs) rest =
    or_later
      (if kind == 1
        then some (record { len = length body; mask = body ++ write_chain xs rest })
        else none)
      (last_selack xs rest)

-- The last extension bits of a chain (the body of an extension of kind 2).
abbrev pub last_bits : Extensions → Option (List ℕ)
last_bits [] = none
last_bits ((kind, body) ∷ xs) = or_later (if kind == 2 then some body else none) (last_bits xs)

or_later_assoc :
    {A : Type 0} → (x y z : Option A) → or_later (or_later x y) z ≡ or_later x (or_later y z)
or_later_assoc x none none = refl
or_later_assoc x (some y) none = refl
or_later_assoc x y (some z) = refl

or_later-none : {A : Type 0} → (x : Option A) → or_later none x ≡ x
or_later-none none = refl
or_later-none (some x) = refl

take-append : {A : Type 0} → (n : ℕ) (xs ys : List A) → length xs ≡ n → take n (xs ++ ys) ≡ xs
take-append zero [] ys h = refl
take-append zero (x ∷ xs) ys h = absurd (omega (arith, h))
take-append (suc n) [] ys h = absurd (omega (arith, h))
take-append (suc n) (x ∷ xs) ys h = ap (λ t. x ∷ t) (take-append n xs ys (omega (arith, h)))

-- One extension is read as what it is.
read_extension-last :
    (kind : ℕ) (body after : List ℕ) (found : Found)
    → (kind == 2 && not (length body == 8)) ≡ false
    → read_extension kind (length body) (body ++ after) found ≡ record {
      selack =
          or_later found.selack
            (if kind == 1 then some (record { len = length body; mask = body ++ after }) else none);
      extensions = or_later found.extensions (if kind == 2 then some body else none);
    }
unfolding read_extension
read_extension-last kind body after found bits = elim (Bool-cases (kind == 1)) [
  | inl one ↦ let two : (kind == 2) ≡ false = ground arith in rw (one, two) refl
  | inr other ↦ elim (Bool-cases (kind == 2)) [
    | inr neither ↦ rw (other, neither) refl
    | inl two ↦
        let eight : length body ≡ 8 = ground arith in
        rw (other, two, take-append 8 body after eight) refl
  ]
]

find-last :
    (xs : Extensions) (rest : List ℕ) (found : Found)
    → IsChain xs
    → find xs rest found ≡ record {
      selack = or_later found.selack (last_selack xs rest);
      extensions = or_later found.extensions (last_bits xs);
    }
find-last [] rest found c = refl
find-last ((kind, body) ∷ xs) rest found (ne, bits, c) =
    let after = write_chain xs rest in
    let mine =
      if kind == 1 then some (record { len = length body; mask = body ++ after }) else none in
    let own = if kind == 2 then some body else none in
    ap (find xs rest) (read_extension-last kind body after found bits)
    ∙ find-last xs rest
        (record { selack = or_later found.selack mine; extensions = or_later found.extensions own })
        c
    ∙ λ i. record {
      selack = or_later_assoc found.selack mine (last_selack xs rest) i;
      extensions = or_later_assoc found.extensions own (last_bits xs) i;
    }

-- The extensions that a sender writes before its payload, of any kinds but 0, and extension bits of
-- eight bytes, are read back: the payload is found behind them, with the last selective
-- acknowledgment and the last extension bits that were written, if there were any.
pub unpack-write_chain :
    (xs : Extensions) (rest : List ℕ)
    → IsChain xs
    → unpack (first_kind xs) (write_chain xs rest)
      ≡ payload (record { selack = last_selack xs rest; extensions = last_bits xs }) rest
unpack-write_chain xs rest c =
    unpack-find xs rest c
    ∙ ap (λ found. payload found rest)
        (find-last xs rest (record { selack = none; extensions = none }) c ∙ λ i. record {
          selack = or_later-none (last_selack xs rest) i;
          extensions = or_later-none (last_bits xs) i;
        })

-- A list is what follows some first part of another.
abbrev IsSuffix : List ℕ → List ℕ → Type 0
IsSuffix xs ys = (first : List ℕ) × (ys ≡ first ++ xs)

-- The acknowledgment mask lies in the packet, all of its bytes included.
abbrev pub SelackInside : List ℕ → Option Selack → Type 0
SelackInside packet none = Unit {0}
SelackInside packet (some s) =
    ((first : List ℕ) × (packet ≡ first ++ s.mask)) × (s.len ≤ length s.mask)

-- What was read lies in the packet, and the payload is its end.
abbrev pub Inside : List ℕ → Unpacked → Type 0
Inside packet (refused found) = SelackInside packet found.selack
Inside packet (payload found rest) =
    ((first : List ℕ) × (packet ≡ first ++ rest)) × SelackInside packet found.selack

take-drop : (n : ℕ) (xs : List ℕ) → xs ≡ take n xs ++ drop n xs
take-drop zero xs = refl
take-drop (suc n) [] = refl
take-drop (suc n) (x ∷ xs) = ap (λ t. x ∷ t) (take-drop n xs)

append_assoc : (xs ys zs : List ℕ) → xs ++ ys ++ zs ≡ xs ++ (ys ++ zs)
append_assoc [] ys zs = refl
append_assoc (x ∷ xs) ys zs = ap (λ t. x ∷ t) (append_assoc xs ys zs)

drop-IsSuffix : (n : ℕ) (xs packet : List ℕ) → IsSuffix xs packet → IsSuffix (drop n xs) packet
drop-IsSuffix n xs packet (first, e) = (
  first ++ take n xs,
  e ∙ ap (λ t. first ++ t) (take-drop n xs) ∙ sym (append_assoc first (take n xs) (drop n xs)),
)

read_extension-inside :
    (packet : List ℕ) (kind len : ℕ) (rest : List ℕ) (found : Found)
    → IsSuffix rest packet
    → len ≤ length rest
    → SelackInside packet found.selack
    → SelackInside packet (read_extension kind len rest found).selack
unfolding read_extension
read_extension-inside packet kind len rest found s h i = elim (Bool-cases (kind == 1)) [
  | inl e ↦ rw e (s, h)
  | inr e ↦ elim (Bool-cases (kind == 2)) [ inl e2 ↦ rw (e, e2) i | inr e2 ↦ rw (e, e2) i ]
]

unpack_loop-Inside :
    (packet : List ℕ) (fuel kind : ℕ) (bytes : List ℕ) (found : Found)
    → IsSuffix bytes packet
    → SelackInside packet found.selack
    → Inside packet (unpack_loop fuel kind bytes found)
unfolding unpack_loop
unpack_loop-Inside packet zero kind bytes found s i = i
unpack_loop-Inside packet (suc fuel) kind bytes found s i =
    elim (Bool-cases
      (ltb (length bytes) 2 || ltb (length rest) len || (kind == 2 && not (len == 8)))) [
        | inl bad ↦ rw bad i
        | inr good ↦
            let room : len ≤ length rest =
              fits_rest (ltb (length bytes) 2) (length rest) len _ good in
            let tail = drop-IsSuffix 2 bytes packet s in
            let inside = read_extension-inside packet kind len rest found tail room i in
            let after = drop-IsSuffix len rest packet tail in
            elim (Bool-cases (get_or bytes 0 0 == 0)) [
              | inl end ↦ rw (good, end) (after, inside)
              | inr more ↦
                  rw (good, more)
                    (unpack_loop-Inside packet fuel (get_or bytes 0 0) (drop len rest)
                      (read_extension kind len rest found) after inside)
            ]
      ]
  where
    len : ℕ
    len = get_or bytes 1 0

    rest : List ℕ
    rest = drop 2 bytes

    fits_rest : (a : Bool) (n k : ℕ) (b : Bool) → (a || ltb n k || b) ≡ false → k ≤ n
    fits_rest a n k b e = ground arith

-- Whatever bytes follow the header, the payload that is found is the end of the packet, and the mask of
-- a selective acknowledgment, with the number of bytes that it claims, lies inside of the packet.
pub unpack-Inside : (kind : ℕ) (bytes : List ℕ) → Inside bytes (unpack kind bytes)
unfolding unpack
unpack-Inside kind bytes = elim (Bool-cases (kind == 0)) [
  | inl e ↦ rw e (([], refl), tt)
  | inr e ↦ rw e (unpack_loop-Inside bytes (suc (length bytes)) kind bytes _ ([], refl) tt)
]

length-drop : (n : ℕ) (xs : List ℕ) → length (drop n xs) ≤ length xs
length-drop zero xs = omega arith
length-drop (suc n) [] = omega arith
length-drop (suc n) (x ∷ xs) = omega (arith, length-drop n xs)

-- A round that goes on has consumed two bytes or more.
shorter :
    (k : ℕ) (bytes : List ℕ)
    → ltb (length bytes) 2 ≡ false
    → suc (length (drop k (drop 2 bytes))) < length bytes
shorter k [] e = cc e
shorter k (x ∷ []) e = absurd (ground arith)
shorter k (x ∷ y ∷ bytes) e = omega (arith, length-drop k bytes)

-- Any two amounts of fuel above the number of bytes give the same outcome: the loop ends by its own
-- tests, on every input.
pub unpack_loop-fuel :
    (f g kind : ℕ) (bytes : List ℕ) (found : Found)
    → length bytes < f
    → length bytes < g
    → unpack_loop f kind bytes found ≡ unpack_loop g kind bytes found
unfolding unpack_loop
unpack_loop-fuel zero g kind bytes found hf hg = absurd (omega arith)
unpack_loop-fuel (suc f) zero kind bytes found hf hg = absurd (omega arith)
unpack_loop-fuel (suc f) (suc g) kind bytes found hf hg = elim (Bool-cases (ltb (length bytes) 2)) [
  | inl short ↦ rw short refl
  | inr long ↦
      rw
        (unpack_loop-fuel f g (get_or bytes 0 0) (drop (get_or bytes 1 0) (drop 2 bytes))
          (read_extension kind (get_or bytes 1 0) (drop 2 bytes) found)
          (omega (arith, shorter (get_or bytes 1 0) bytes long))
          (omega (arith, shorter (get_or bytes 1 0) bytes long)))
        refl
]
