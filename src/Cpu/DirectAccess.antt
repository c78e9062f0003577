-- ===== src/Cpu/DirectAccess.antt =====
-- WriteMemory and ReadMemory of cpu/memory/mmu.go without a cache, inside one page.
use tp_sisop_go_utn.Cpu.Mmu.{
  read_memory_cached, write_memory_cached, get_page_twice, read_memory_direct, read_memory,
  write_memory_direct, write_memory,
}
use tp_sisop_go_utn.Base.{
  if◌then◌else◌, Bool, pos, arith, List, true, take, refl, ◌++◌, ℕ, false, some, sym, ◌≡◌, leb,
  subst, [], ◌+◌, ◌∷◌, length, zero, ◌≤◌, suc, Option, ap, drop, ◌∙◌,
}
use tp_sisop_go_utn.Cpu.Memory.{
  get_page_in_memory, traducir_page, save_page_in_memory, MemoryProgram,
}
use tp_sisop_go_utn.Cpu.Translating.{get_page_in_memory-Returns, traducir_page-Returns}
use tp_sisop_go_utn.Cpu.Serving.{Agrees, Serves}
use tp_sisop_go_utn.Cpu.State.{Cpu, split_address}
use tp_sisop_go_utn.Cpu.Buffers.{overlay}
use tp_sisop_go_utn.Base.Outcome.{◌>>=◌, done}

pub length-overlay :
    (delta : ℕ) (value page : List ℕ) → length (overlay delta value page) ≡ length page
unfolding overlay
length-overlay delta value [] = refl
length-overlay zero [] (p ∷ ps) = refl
length-overlay zero (v ∷ vs) (p ∷ ps) = ap suc (length-overlay zero vs ps)
length-overlay (suc delta) vs (p ∷ ps) = ap suc (length-overlay delta vs ps)

pub take-drop-overlay :
    (delta : ℕ) (value page : List ℕ)
    → delta + length value ≤ length page
    → take (length value) (drop delta (overlay delta value page)) ≡ value
unfolding overlay
take-drop-overlay delta [] page h = take_zero (drop delta (overlay delta [] page))
  where
    take_zero : (xs : List ℕ) → take 0 xs ≡ []
    take_zero xs = refl
take-drop-overlay delta (v ∷ vs) [] h = absurd (omega arith)
take-drop-overlay zero (v ∷ vs) (p ∷ ps) h =
    ap (λ l. v ∷ l) (take-drop-overlay zero vs ps (omega arith))
take-drop-overlay (suc delta) (v ∷ vs) (p ∷ ps) h =
    take-drop-overlay delta (v ∷ vs) ps (omega arith)

pub split_address-snoc :
    (base : List ℕ) (delta : ℕ) → split_address (base ++ delta ∷ []) ≡ some (base, delta)
split_address-snoc [] delta = refl
split_address-snoc (a ∷ []) delta = refl
split_address-snoc (a ∷ b ∷ rest) delta = rw (split_address-snoc (b ∷ rest) delta) refl

-- The runs of both, from the results of their parts.
module _ {S : Type 0} (program : MemoryProgram S) (base : List ℕ) (delta frame : ℕ) (page : List ℕ)
    (c t u : Cpu S) (no_cache : c.cache_enable ≡ false)
    (translated : traducir_page program base c.pid c ≡ done (some frame) t)
    (found : get_page_in_memory program frame t ≡ done (some page) u) where
  write_memory_direct_run :
      (value : List ℕ) (w : Cpu S)
      → leb (length value + delta) c.memory_conf.page_size ≡ true
      → leb delta (length page) ≡ true
      → save_page_in_memory program (overlay delta value page) base (some c.pid) u ≡ done true w
      → write_memory_direct program base delta value c ≡ done true w
  unfolding write_memory_direct
  write_memory_direct_run value w fits start stored =
      rw (translated, found, fits, start, stored, ◌>>=◌) refl

  write_memory_run :
      (value : List ℕ) (w : Cpu S)
      → leb (length value + delta) c.memory_conf.page_size ≡ true
      → leb delta (length page) ≡ true
      → save_page_in_memory program (overlay delta value page) base (some c.pid) u ≡ done true w
      → write_memory program (base ++ delta ∷ []) value c ≡ done true w
  unfolding write_memory
  write_memory_run value w fits start stored =
      rw (split_address-snoc base delta)
        (chosen c.cache_enable no_cache (write_memory_direct_run value w fits start stored))
    where
      chosen :
          (b : Bool)
          → b ≡ false
          → write_memory_direct program base delta value c ≡ done true w
          → (if b
                then write_memory_cached program base delta value
                else write_memory_direct program base delta value)
              c
            ≡ done true w
      chosen true e h = absurd (cc)
      chosen false e h = h

  read_memory_direct_run :
      (n : ℕ)
      → leb (n + delta) t.memory_conf.page_size ≡ true
      → leb (delta + n) (length page) ≡ true
      → read_memory_direct program base delta frame (pos n) t
        ≡ done (some (take n (drop delta page))) u
  unfolding read_memory_direct get_page_twice
  read_memory_direct_run n fits end = rw (found, fits, end, ◌>>=◌) refl

  read_memory_run :
      (n : ℕ)
      → leb (n + delta) t.memory_conf.page_size ≡ true
      → leb (delta + n) (length page) ≡ true
      → read_memory program (base ++ delta ∷ []) (pos n) c
        ≡ done (some (take n (drop delta page))) u
  unfolding read_memory
  read_memory_run n fits end =
      rw (split_address-snoc base delta, translated, ◌>>=◌)
        (chosen c.cache_enable no_cache (read_memory_direct_run n fits end))
    where
      chosen :
          (b : Bool)
          → b ≡ false
          → read_memory_direct program base delta frame (pos n) t
            ≡ done (some (take n (drop delta page))) u
          → (if b
                then read_memory_cached program base delta frame (pos n)
                else read_memory_direct program base delta frame (pos n))
              t
            ≡ done (some (take n (drop delta page))) u
      chosen true e h = absurd (cc)
      chosen false e h = h

module _ {S : Type 0} (program : MemoryProgram S) (frame_of : S → ℕ → List ℕ → Option ℕ)
    (page_of : S → ℕ → ℕ → Option (List ℕ)) (serves : Serves program frame_of page_of) where
  -- What SavePageInMemory leaves: the page is stored, and the frames stay.
  pub record Stores (c t : Cpu S) (pid frame : ℕ) (page : List ℕ) : Type 0 where
    pub kept_conf : t.memory_conf ≡ c.memory_conf
    pub kept_enable : t.cache_enable ≡ c.cache_enable
    pub kept_pid : t.pid ≡ c.pid
    pub kept_exit : t.exit_pending ≡ c.exit_pending
    pub kept_pc : t.pc ≡ c.pc
    pub kept_interrupt : t.interrupt_pending ≡ c.interrupt_pending
    pub kept_instruction : t.instruction ≡ c.instruction
    pub kept_frames : frame_of t.memory ≡ frame_of c.memory
    pub stored : page_of t.memory pid frame ≡ some page
    pub still_agrees : Agrees (frame_of t.memory) t.tlb.entries

  save_page_in_memory-Stores :
      (page addr : List ℕ) (pid frame : ℕ) (old : List ℕ) (c : Cpu S)
      → Agrees (frame_of c.memory) c.tlb.entries
      → frame_of c.memory pid addr ≡ some frame
      → page_of c.memory pid frame ≡ some old
      → length page ≡ length old
      → (t : Cpu S) × (save_page_in_memory program page addr (some pid) c ≡ done true t)
        × Stores c t pid frame page
  unfolding save_page_in_memory
  save_page_in_memory-Stores page addr pid frame old c h mapped has len =
      let r = traducir_page-Returns program frame_of page_of serves addr pid c h in
      let u = r.undisturbed in
      let m = r.after.memory in
      let has' : page_of m pid frame ≡ some old = ap (λ f. f pid frame) u.same_pages ∙ has in
      let s = (program.save_page pid frame page m).1 in
      let keeps : frame_of s ≡ frame_of m = serves.save_keeps pid frame page m in
      (
        record r.after { memory = s },
        rw (r.result, mapped, serves.save_reply pid frame old page m has' len, ◌>>=◌) refl,
        record {
          kept_conf = u.same_conf;
          kept_enable = u.same_enable;
          kept_pid = u.same_pid;
          kept_exit = u.same_exit;
          kept_pc = u.same_pc;
          kept_interrupt = u.same_interrupt;
          kept_instruction = u.same_instruction;
          kept_frames = keeps ∙ u.same_frames;
          stored = serves.save_stores pid frame old page m has' len;
          still_agrees =
              subst (λ f. Agrees f r.after.tlb.entries) (sym (keeps ∙ u.same_frames)) u.agrees;
        },
      )

  module _ (base : List ℕ) (delta frame : ℕ) (value old : List ℕ) (c : Cpu S)
      (agrees : Agrees (frame_of c.memory) c.tlb.entries) (no_cache : c.cache_enable ≡ false)
      (mapped : frame_of c.memory c.pid base ≡ some frame)
      (has : page_of c.memory c.pid frame ≡ some old) (whole : length old ≡ c.memory_conf.page_size)
      (inside : length value + delta ≤ c.memory_conf.page_size) where
    pub write_memory-Stores :
        (t : Cpu S) × (write_memory program (base ++ delta ∷ []) value c ≡ done true t)
        × Stores c t c.pid frame (overlay delta value old)
    write_memory-Stores =
        let one = traducir_page-Returns program frame_of page_of serves base c.pid c agrees in
        let u = one.undisturbed in
        let two =
          get_page_in_memory-Returns program frame_of page_of serves frame one.after
            (subst (λ f. Agrees f one.after.tlb.entries) (sym u.same_frames) u.agrees) in
        let v = two.undisturbed in
        let page_found : page_of one.after.memory one.after.pid frame ≡ some old =
          ap (λ p. page_of one.after.memory p frame) u.same_pid
          ∙ ap (λ f. f c.pid frame) u.same_pages
          ∙ has in
        let (t, saved_it, stores) =
          save_page_in_memory-Stores (overlay delta value old) base c.pid frame old two.after
            (subst (λ f. Agrees f two.after.tlb.entries) (sym v.same_frames) v.agrees)
            (ap (λ f. f c.pid base) (v.same_frames ∙ u.same_frames) ∙ mapped)
            (ap (λ f. f c.pid frame) (v.same_pages ∙ u.same_pages) ∙ has)
            (length-overlay delta value old) in
        (
          t,
          write_memory_run program base delta frame old c one.after two.after no_cache
              (one.result ∙ ap (λ f. done f one.after) mapped)
              (two.result ∙ ap (λ f. done f two.after) page_found) value t (ground (arith, inside))
              (ground (arith, inside, whole)) saved_it,
          record {
            kept_conf = stores.kept_conf ∙ v.same_conf ∙ u.same_conf;
            kept_enable = stores.kept_enable ∙ v.same_enable ∙ u.same_enable;
            kept_pid = stores.kept_pid ∙ v.same_pid ∙ u.same_pid;
            kept_exit = stores.kept_exit ∙ v.same_exit ∙ u.same_exit;
            kept_pc = stores.kept_pc ∙ v.same_pc ∙ u.same_pc;
            kept_interrupt = stores.kept_interrupt ∙ v.same_interrupt ∙ u.same_interrupt;
            kept_instruction = stores.kept_instruction ∙ v.same_instruction ∙ u.same_instruction;
            kept_frames = stores.kept_frames ∙ v.same_frames ∙ u.same_frames;
            stored = stores.stored;
            still_agrees = stores.still_agrees;
          },
        )

    -- Without a cache, bytes that WriteMemory writes inside a page are what ReadMemory reads there
    -- next, and the memory program has the page with those bytes in it. The memory program serves
    -- one table of frames and one of pages, has the page with the size of a page, and the entries
    -- of the TLB agree with it.
    pub read_memory-write_memory :
        (t u : Cpu S) × (write_memory program (base ++ delta ∷ []) value c ≡ done true t)
        × (read_memory program (base ++ delta ∷ []) (pos (length value)) t ≡ done (some value) u)
        × (page_of t.memory c.pid frame ≡ some (overlay delta value old))
    read_memory-write_memory =
        let (t, written_it, k) = write_memory-Stores in
        let page = overlay delta value old in
        let one =
          traducir_page-Returns program frame_of page_of serves base t.pid t k.still_agrees in
        let u = one.undisturbed in
        let two =
          get_page_in_memory-Returns program frame_of page_of serves frame one.after
            (subst (λ f. Agrees f one.after.tlb.entries) (sym u.same_frames) u.agrees) in
        let mapped' : frame_of t.memory t.pid base ≡ some frame =
          ap (λ p. frame_of t.memory p base) k.kept_pid
          ∙ ap (λ f. f c.pid base) k.kept_frames
          ∙ mapped in
        let page_found : page_of one.after.memory one.after.pid frame ≡ some page =
          ap (λ p. page_of one.after.memory p frame) (u.same_pid ∙ k.kept_pid)
          ∙ ap (λ f. f c.pid frame) u.same_pages
          ∙ k.stored in
        let size : one.after.memory_conf.page_size ≡ c.memory_conf.page_size =
          ap (λ q. q.page_size) (u.same_conf ∙ k.kept_conf) in
        (
          t,
          two.after,
          written_it,
          read_memory_run program base delta frame page t one.after two.after
                (k.kept_enable ∙ no_cache) (one.result ∙ ap (λ f. done f one.after) mapped')
                (two.result ∙ ap (λ f. done f two.after) page_found) (length value)
                (ground (arith, inside, size))
                (ground (arith, inside, whole, length-overlay delta value old))
              ∙ ap (λ l. done (some l) two.after)
                  (take-drop-overlay delta value old (omega (arith, inside, whole))),
          k.stored,
        )
