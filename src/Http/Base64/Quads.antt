-- ===== src/Http/Base64/Quads.antt =====
-- What decodeBase64 decodes, and the state of its loop.
use raspberry_car.Base.{
  ℕ, suc, ◌+◌, ◌/◌, ◌%◌, ◌^◌, ◌≤◌, ◌<◌, ◌≡◌, ◌≢◌, refl, ap, ◌∙◌, List, [], ◌∷◌, ◌++◌, append_assoc,
  none, some, ◌==◌, if◌then◌else◌, get_elem?, set, take, drop, length, drop-set, take-set,
  get_elem?-drop, drop-suc, length-set, arith,
}
use raspberry_car.Http.Base64.{sextet, shift_in, store3}

abbrev pub octets : ℕ → List ℕ
octets ch = (ch / 2 ^ 16 % 256) ∷ (ch / 2 ^ 8 % 256) ∷ (ch % 256) ∷ []

-- The bytes that a text decodes to, with `i` characters of a group shifted into `ch` before it.
unfoldable pub decoded : ℕ → ℕ → List ℕ → List ℕ
decoded ch i [] = []
decoded ch i (c ∷ cs) = elim (sextet c) [
  | none ↦ decoded ch i cs
  | some t ↦
      let ch' = shift_in ch t in
      let full = octets ch' ++ decoded ch' 0 cs in
      let part = decoded ch' (i + 1) cs in if i + 1 == 4 then full else part
]

-- The state of the loop: `s` is unread, `written` is done, in the one buffer.
pub record State (mem : List ℕ) (out pos i : ℕ) (written s rest : List ℕ) : Type 0 where
  pub unread : drop pos mem ≡ s ++ 0 ∷ rest
  pub front : take out mem ≡ written
  pub size : length written ≡ out
  pub behind : out + i ≤ pos
  pub small : i < 4

module _ {mem : List ℕ} {out pos i : ℕ} {written rest : List ℕ} where
  pub State-here :
      (c : ℕ) (s : List ℕ) → State mem out pos i written (c ∷ s) rest → get_elem? mem pos ≡ some c
  State-here c s v =
      let e : pos ≡ pos + 0 = omega arith in
      rw e (get_elem?-drop mem pos 0 ∙ ap (λ l. get_elem? l 0) v.unread)

  pub State-end : State mem out pos i written [] rest → get_elem? mem pos ≡ some 0
  State-end v =
      let e : pos ≡ pos + 0 = omega arith in
      rw e (get_elem?-drop mem pos 0 ∙ ap (λ l. get_elem? l 0) v.unread)

  pub State-unread :
      (c : ℕ) (s : List ℕ)
      → State mem out pos i written (c ∷ s) rest
      → drop (pos + 1) mem ≡ s ++ 0 ∷ rest
  State-unread c s v = let e : pos + 1 ≡ suc pos = omega arith in rw e (drop-suc mem pos v.unread)

  pub State-skip :
      (c : ℕ) (s : List ℕ)
      → State mem out pos i written (c ∷ s) rest
      → State mem out (pos + 1) i written s rest
  State-skip c s v = record {
    unread = State-unread c s v;
    front = v.front;
    size = v.size;
    behind = omega (arith, v.behind);
    small = v.small;
  }

  pub State-part :
      (c : ℕ) (s : List ℕ)
      → State mem out pos i written (c ∷ s) rest
      → i + 1 ≢ 4
      → State mem out (pos + 1) (i + 1) written s rest
  State-part c s v ne = record {
    unread = State-unread c s v;
    front = v.front;
    size = v.size;
    behind = omega (arith, v.behind);
    small = omega (arith, v.small);
  }

-- A write just past a prefix extends it.
pub take-set_next :
    (mem written : List ℕ) (n m v : ℕ)
    → m ≡ n + 1
    → take n mem ≡ written
    → n < length mem
    → take m (set mem n v) ≡ written ++ v ∷ []
take-set_next mem written n m v step e room =
    let one : m ≡ suc n = omega arith in rw one (take-set mem n v room ∙ ap (λ l. l ++ v ∷ []) e)

pub take-store3 :
    (mem written : List ℕ) (out ch : ℕ)
    → take out mem ≡ written
    → out + 2 < length mem
    → take (out + 3) (store3 mem out ch) ≡ written ++ octets ch
take-store3 mem written out ch e room =
    let a = ch / 2 ^ 16 % 256 in
    let b = ch / 2 ^ 8 % 256 in
    let c = ch % 256 in
    let mem1 = set mem out a in
    let mem2 = set mem1 (out + 1) b in
    let e1 = take-set_next mem written out (out + 1) a refl e (omega arith) in
    let e2 =
      take-set_next mem1 (written ++ a ∷ []) (out + 1) (out + 2) b (omega arith) e1
        (omega (arith, length-set mem out a)) in
    let e3 =
      take-set_next mem2 ((written ++ a ∷ []) ++ b ∷ []) (out + 2) (out + 3) c (omega arith) e2
        (omega (arith, length-set mem out a, length-set mem1 (out + 1) b)) in
    e3
    ∙ append_assoc (written ++ a ∷ []) (b ∷ []) (c ∷ [])
    ∙ append_assoc written (a ∷ []) (b ∷ c ∷ [])

-- Three writes below a position are not seen from there on.
pub drop-store3 :
    (mem : List ℕ) (out ch n : ℕ) → out + 2 < n → drop n (store3 mem out ch) ≡ drop n mem
drop-store3 mem out ch n h =
    drop-set (set (set mem out (ch / 2 ^ 16 % 256)) (out + 1) (ch / 2 ^ 8 % 256)) (out + 2) n
      (ch % 256) h
    ∙ drop-set (set mem out (ch / 2 ^ 16 % 256)) (out + 1) n (ch / 2 ^ 8 % 256) (omega arith)
    ∙ drop-set mem out n (ch / 2 ^ 16 % 256) (omega arith)
