-- ===== src/Cpu/Marks.antt =====
-- The marks of the cache entries that CLOCK changes (cpu/memory/cache.go), and what it leaves alone.
use tp_sisop_go_utn.Cpu.Cache.{is_free, give_hand, is_in_cache}
use tp_sisop_go_utn.Cpu.Tlb.{are_slices_equal}
use tp_sisop_go_utn.Cpu.State.{CacheEntry}
use tp_sisop_go_utn.Base.{
  arith, ◌||◌, get_elem?, Option, ap, refl, ◌+◌, if◌then◌else◌, ◌∷◌, length, false, ℕ, [], ◌≡◌,
  none, List, set, some, sym, suc, true, zero,
}
use mathlib.Core.Option.{some-injective}

-- How many entries CLOCK passes over.
abbrev pub count_busy : List CacheEntry → ℕ
count_busy [] = 0
count_busy (e ∷ es) = (if is_free e then 0 else 1) + count_busy es

pub count_busy-give_hand :
    (i : ℕ) (es : List CacheEntry) → count_busy (give_hand i es) ≡ count_busy es
unfolding give_hand
count_busy-give_hand i [] = refl
count_busy-give_hand zero (e ∷ es) = refl
count_busy-give_hand (suc i) (e ∷ es) =
    ap (λ n. (if is_free e then 0 else 1) + n) (count_busy-give_hand i es)

pub length-give_hand : (i : ℕ) (es : List CacheEntry) → length (give_hand i es) ≡ length es
unfolding give_hand
length-give_hand i [] = refl
length-give_hand zero (e ∷ es) = refl
length-give_hand (suc i) (e ∷ es) = ap suc (length-give_hand i es)

-- An entry that CLOCK has passed over is free.
pub is_free-passed_over :
    (e : CacheEntry) → is_free (record e { used = false; position = false }) ≡ true
is_free-passed_over e = unused e.pid
  where
    unused : (p : Option ℕ) → (elim p [ none ↦ true | some q ↦ true ]) ≡ true
    unused none = refl
    unused (some q) = refl

-- Passing over a busy entry leaves one busy entry less.
pub count_busy-set :
    (i : ℕ) (e : CacheEntry) (es : List CacheEntry)
    → get_elem? es i ≡ some e
    → is_free e ≡ false
    → suc (count_busy (set es i (record e { used = false; position = false }))) ≡ count_busy es
count_busy-set i e [] found busy = absurd (cc)
count_busy-set zero e (x ∷ es) found busy =
    let same = some-injective x e found in
    ground (arith, ap is_free same, busy, is_free-passed_over e)
count_busy-set (suc i) e (x ∷ es) found busy =
    let rest = count_busy-set i e es found busy in ground (arith, rest)

-- An entry without the marks that CLOCK changes.
abbrev pub outline : CacheEntry → CacheEntry
outline e = record e { used = false; position = false }

abbrev pub outlines : List CacheEntry → List CacheEntry
outlines [] = []
outlines (e ∷ es) = outline e ∷ outlines es

pub outlines-give_hand : (i : ℕ) (es : List CacheEntry) → outlines (give_hand i es) ≡ outlines es
unfolding give_hand
outlines-give_hand i [] = refl
outlines-give_hand zero (e ∷ es) = refl
outlines-give_hand (suc i) (e ∷ es) = ap (λ l. outline e ∷ l) (outlines-give_hand i es)

pub outlines-set :
    (i : ℕ) (e : CacheEntry) (es : List CacheEntry)
    → get_elem? es i ≡ some e
    → outlines (set es i (record e { used = false; position = false })) ≡ outlines es
outlines-set i e [] found = refl
outlines-set zero e (x ∷ es) found =
    ap (λ y. outline y ∷ outlines es) (sym (some-injective x e found))
outlines-set (suc i) e (x ∷ es) found = ap (λ l. outline x ∷ l) (outlines-set i e es found)

pub outlines-get_elem? :
    (es fs : List CacheEntry) (i : ℕ) (e : CacheEntry)
    → outlines es ≡ outlines fs
    → get_elem? es i ≡ some e
    → (f : CacheEntry) × (get_elem? fs i ≡ some f) × (outline f ≡ outline e)
outlines-get_elem? [] fs i e same found = absurd (cc)
outlines-get_elem? (x ∷ es) [] i e same found = absurd (cc)
outlines-get_elem? (x ∷ es) (y ∷ fs) zero e same found = (y, refl, cc)
outlines-get_elem? (x ∷ es) (y ∷ fs) (suc i) e same found = outlines-get_elem? es fs i e (cc) found

pub is_in_cache-outlines :
    (page : List ℕ) (es : List CacheEntry) → is_in_cache page (outlines es) ≡ is_in_cache page es
unfolding is_in_cache
is_in_cache-outlines page [] = refl
is_in_cache-outlines page (e ∷ es) =
    ap (λ b. are_slices_equal e.page page || b) (is_in_cache-outlines page es)
