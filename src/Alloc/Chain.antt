-- ===== src/Alloc/Chain.antt =====
-- The free list as a list of pages, and what keeps it intact.
use lab.Memory.{Mem, load64, store64, load64-frame, load64-store64_self, store64-outside}
use lab.Prelude.{
  ℕ, ◌+◌, ◌*◌, ◌%◌, ◌^◌, ◌≤◌, ◌<◌, ◌≡◌, refl, ◌≢◌, ◌⊎◌, List, [], ◌∷◌, arith, ◌∈◌, ◌∉◌,
}

-- The address of a page that can be handed out, within the 56 bits of a physical address.
abbrev pub IsPage : ℕ → Type 0
IsPage a = (0 < a) × (a % 4096 ≡ 0) × (a < 2 ^ 56)

-- From `p` the first words of the distinct pages `xs` lead to `end`. Of an intact list, `end` is
-- NULL; of one that is only known in front, it is the address of the next page.
abbrev pub Chain : ℕ → Mem → ℕ → List ℕ → Type 0
Chain end m p [] = p ≡ end
Chain end m p (a ∷ xs) = (p ≡ a) × IsPage a × (a ∉ xs) × Chain end m (load64 m a) xs

-- `n` differs from `m` at most in the page at `p`.
abbrev pub SameOutsidePage : ℕ → Mem → Mem → Type 0
SameOutsidePage p m n = (x : ℕ) → (x < p) ⊎ (p + 4096 ≤ x) → n x ≡ m x

-- Words of other pages are read as before.
pub load64-other_page :
    (p a i : ℕ) (m n : Mem)
    → SameOutsidePage p m n
    → p % 4096 ≡ 0
    → a % 4096 ≡ 0
    → a ≢ p
    → i < 512
    → load64 n (a + 8 * i) ≡ load64 m (a + 8 * i)
load64-other_page p a i m n same al al' ne lt =
    load64-frame m n (a + 8 * i) λ x lo hi. same x (omega arith)

pub load64-other_page_first :
    (p a : ℕ) (m n : Mem)
    → SameOutsidePage p m n
    → p % 4096 ≡ 0
    → a % 4096 ≡ 0
    → a ≢ p
    → load64 n a ≡ load64 m a
load64-other_page_first p a m n same al al' ne = load64-frame m n a λ x lo hi. same x (omega arith)

pub store64-SameOutsidePage :
    (p i v : ℕ) (m : Mem) → i < 512 → SameOutsidePage p m (store64 m (p + 8 * i) v)
store64-SameOutsidePage p i v m lt x out = store64-outside m (p + 8 * i) v x (omega arith)

-- The list survives any change of a page that it does not hold.
pub Chain-other_page :
    (end : ℕ) (p : ℕ) (m n : Mem) (q : ℕ) (xs : List ℕ)
    → SameOutsidePage p m n
    → p % 4096 ≡ 0
    → p ∉ xs
    → Chain end m q xs
    → Chain end n q xs
Chain-other_page end p m n q [] same al out c = c
Chain-other_page end p m n q (a ∷ xs) same al out c =
    let e = load64-other_page_first p a m n same al c.1.1 (ground arith) in
    (c.0, c.1, c.2, rw e (Chain-other_page end p m n (load64 m a) xs same al (ground arith) c.3))

pub store64-first-SameOutsidePage : (p v : ℕ) (m : Mem) → SameOutsidePage p m (store64 m p v)
store64-first-SameOutsidePage p v m x out = store64-outside m p v x (omega arith)

-- Linking a new page in front.
pub Chain-cons :
    (end : ℕ) (p q : ℕ) (m : Mem) (xs : List ℕ)
    → IsPage p
    → p ∉ xs
    → q < 2 ^ 64
    → Chain end m q xs
    → Chain end (store64 m p q) p (p ∷ xs)
Chain-cons end p q m xs page out small c = (
  refl,
  page,
  out,
  rw (load64-store64_self m p q small) (
      Chain-other_page end p m (store64 m p q) q xs (store64-first-SameOutsidePage p q m) page.1 out
        c),
)

pub Chain-head-lt :
    (end : ℕ) (m : Mem) (p : ℕ) (xs : List ℕ) → end < 2 ^ 64 → Chain end m p xs → p < 2 ^ 64
Chain-head-lt end m p [] small c = omega arith
Chain-head-lt end m p (a ∷ xs) small c = omega arith

-- Every page of the list is a page.
pub Chain-IsPage :
    (end : ℕ) (m : Mem) (p a : ℕ) (xs : List ℕ) → Chain end m p xs → a ∈ xs → IsPage a
Chain-IsPage end m p a [] c h = cc
Chain-IsPage end m p a (x ∷ xs) c h = ground (arith, Chain-IsPage end m (load64 m x) a xs)
