-- ===== src/Server/Tally.antt =====
-- Counting in the hooks, in the running sessions and in the active set.
use grlx_rpc.Prelude.{
  ℕ, ◌+◌, ◌≤◌, ◌≡◌, String, List, [], ◌∷◌, ◌++◌, arith, nat_eq, string_eq, nat_beq_iff, ◌==◌,
  length, if◌then◌else◌, ◌∙◌, refl,
}
use grlx_rpc.Server.{
  Seat, Hook, opened, closed, set_erase, times, sessions_of, Posted, inserts, erases, insertions,
  erasures,
}

-- How often the hooks were called for a token.
abbrev pub opens : ℕ → List Hook → ℕ
opens t [] = 0
opens t (opened u ∷ hs) = (if u == t then 1 else 0) + opens t hs
opens t (closed u ∷ hs) = opens t hs

abbrev pub closes : ℕ → List Hook → ℕ
closes t [] = 0
closes t (opened u ∷ hs) = closes t hs
closes t (closed u ∷ hs) = (if u == t then 1 else 0) + closes t hs

abbrev pub occurs : ℕ → List ℕ → ℕ
occurs t [] = 0
occurs t (u ∷ us) = (if u == t then 1 else 0) + occurs t us

pub opens-append : (t : ℕ) (hs ks : List Hook) → opens t (hs ++ ks) ≡ opens t hs + opens t ks
opens-append t [] ks = omega arith
opens-append t (opened u ∷ hs) ks = omega (arith, opens-append t hs ks)
opens-append t (closed u ∷ hs) ks = opens-append t hs ks

pub closes-append : (t : ℕ) (hs ks : List Hook) → closes t (hs ++ ks) ≡ closes t hs + closes t ks
closes-append t [] ks = omega arith
closes-append t (opened u ∷ hs) ks = closes-append t hs ks
closes-append t (closed u ∷ hs) ks = omega (arith, closes-append t hs ks)

pub times-append : (t : ℕ) (xs ys : List Seat) → times t (xs ++ ys) ≡ times t xs + times t ys
times-append t [] ys = omega arith
times-append t (x ∷ xs) ys = omega (arith, times-append t xs ys)

pub sessions_of-append :
    (ip : String) (xs ys : List Seat)
    → sessions_of ip (xs ++ ys) ≡ sessions_of ip xs + sessions_of ip ys
sessions_of-append ip [] ys = omega arith
sessions_of-append ip (x ∷ xs) ys = omega (arith, sessions_of-append ip xs ys)

pub sessions_of-le : (ip : String) (xs : List Seat) → sessions_of ip xs ≤ length xs
sessions_of-le ip [] = omega arith
sessions_of-le ip (x ∷ xs) = ground (arith, sessions_of-le ip xs)

pub occurs-set_erase :
    (t u : ℕ) (us : List ℕ) → occurs t (set_erase u us) ≡ (if u == t then 0 else occurs t us)
unfolding set_erase
occurs-set_erase t u [] = ground arith
occurs-set_erase t u (x ∷ us) =
    ground (arith, nat_beq_iff u t, nat_beq_iff x u, nat_beq_iff x t, occurs-set_erase t u us)

pub insertions-append :
    (t : ℕ) (ps qs : List Posted) → insertions t (ps ++ qs) ≡ insertions t ps + insertions t qs
insertions-append t [] qs = omega arith
insertions-append t (inserts u ∷ ps) qs = omega (arith, insertions-append t ps qs)
insertions-append t (erases u ∷ ps) qs = insertions-append t ps qs

pub erasures-append :
    (t : ℕ) (ps qs : List Posted) → erasures t (ps ++ qs) ≡ erasures t ps + erasures t qs
erasures-append t [] qs = omega arith
erasures-append t (inserts u ∷ ps) qs = erasures-append t ps qs
erasures-append t (erases u ∷ ps) qs = omega (arith, erasures-append t ps qs)

-- Nothing that is posted inserts a token after it has been erased.
abbrev pub Ordered : List Posted → Type 0
Ordered [] = Unit
Ordered (inserts u ∷ ps) = Ordered ps
Ordered (erases u ∷ ps) = (insertions u ps ≡ 0) × Ordered ps

pub inserts-Ordered :
    (t : ℕ) (ps : List Posted) → erasures t ps ≡ 0 → Ordered ps → Ordered (ps ++ inserts t ∷ [])
inserts-Ordered t [] e o = tt
inserts-Ordered t (inserts u ∷ ps) e o = inserts-Ordered t ps e o
inserts-Ordered t (erases u ∷ ps) e o = (
  ground (arith, o.0, e, insertions-append u ps (inserts t ∷ []), nat_beq_iff u t, nat_beq_iff t u),
  inserts-Ordered t ps (omega (arith, e)) o.1,
)

pub erases-Ordered : (t : ℕ) (ps : List Posted) → Ordered ps → Ordered (ps ++ erases t ∷ [])
erases-Ordered t [] o = (refl, tt)
erases-Ordered t (inserts u ∷ ps) o = erases-Ordered t ps o
erases-Ordered t (erases u ∷ ps) o =
    (insertions-append u ps (erases t ∷ []) ∙ omega (arith, o.0), erases-Ordered t ps o.1)
