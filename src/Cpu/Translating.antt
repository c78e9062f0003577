-- ===== src/Cpu/Translating.antt =====
-- Traducir with a TLB, against the frames of the memory program.
use tp_sisop_go_utn.Cpu.Serving.{find_entry-Agrees, Agrees-add, reply_of, Agrees, Serves}
use tp_sisop_go_utn.Cpu.Tlb.{find_entry, TlbEntry, add_entry_tlb, find_frame}
use tp_sisop_go_utn.Cpu.Memory.{
  remembered, ask_again, look_up, or_memory, remember, traducir_page, with_dump, close_dump, Reply,
  find_frame_in_memory, get_page_in_memory, mandar_dump_memory, MemoryProgram, answered, refused,
  unreachable,
}
use tp_sisop_go_utn.Base.{
  Bool-cases, inl, ◌==◌, ap, inr, ◌+◌, sym, subst, ◌≢◌, Option, ◌∙◌, none, ℕ, refl, some, List, ◌≡◌,
}
use tp_sisop_go_utn.Cpu.State.{Cpu, Run}
use tp_sisop_go_utn.Base.Outcome.{done, ◌>>=◌}

module _ {S : Type 0} (program : MemoryProgram S) (frame_of : S → ℕ → List ℕ → Option ℕ)
    (page_of : S → ℕ → ℕ → Option (List ℕ)) (serves : Serves program frame_of page_of) where
  -- What a request leaves as it was, and a TLB that agrees with the memory program.
  pub record Undisturbed (c t : Cpu S) : Type 0 where
    pub same_conf : t.memory_conf ≡ c.memory_conf
    pub same_cache : t.cache ≡ c.cache
    pub same_enable : t.cache_enable ≡ c.cache_enable
    pub same_pid : t.pid ≡ c.pid
    pub same_exit : t.exit_pending ≡ c.exit_pending
    pub same_pc : t.pc ≡ c.pc
    pub same_interrupt : t.interrupt_pending ≡ c.interrupt_pending
    pub same_instruction : t.instruction ≡ c.instruction
    pub same_frames : frame_of t.memory ≡ frame_of c.memory
    pub same_pages : page_of t.memory ≡ page_of c.memory
    pub agrees : Agrees (frame_of c.memory) t.tlb.entries

  -- An operation that returns `a` and disturbs nothing.
  pub record Returns {A : Type 0} (m : Run S A) (c : Cpu S) (a : A) : Type 0 where
    pub after : Cpu S
    pub result : m c ≡ done a after
    pub undisturbed : Undisturbed c after

  pub Undisturbed-trans : (c t u : Cpu S) → Undisturbed c t → Undisturbed t u → Undisturbed c u
  Undisturbed-trans c t u h k = record {
    same_conf = k.same_conf ∙ h.same_conf;
    same_cache = k.same_cache ∙ h.same_cache;
    same_enable = k.same_enable ∙ h.same_enable;
    same_pid = k.same_pid ∙ h.same_pid;
    same_exit = k.same_exit ∙ h.same_exit;
    same_pc = k.same_pc ∙ h.same_pc;
    same_interrupt = k.same_interrupt ∙ h.same_interrupt;
    same_instruction = k.same_instruction ∙ h.same_instruction;
    same_frames = k.same_frames ∙ h.same_frames;
    same_pages = k.same_pages ∙ h.same_pages;
    agrees = subst (λ f. Agrees f u.tlb.entries) h.same_frames k.agrees;
  }

  Undisturbed-memory :
      (c : Cpu S) (s : S)
      → (frame_of s ≡ frame_of c.memory) × (page_of s ≡ page_of c.memory)
      → Agrees (frame_of c.memory) c.tlb.entries
      → Undisturbed c (record c { memory = s })
  Undisturbed-memory c s same h = record {
    same_conf = refl;
    same_cache = refl;
    same_enable = refl;
    same_pid = refl;
    same_exit = refl;
    same_pc = refl;
    same_interrupt = refl;
    same_instruction = refl;
    same_frames = same.0;
    same_pages = same.1;
    agrees = h;
  }

  close_dump-reached :
      (r : Reply (Unit {0})) (c : Cpu S) → r ≢ unreachable → close_dump program r c ≡ done tt c
  close_dump-reached (answered _) c n = refl
  close_dump-reached refused c n = refl
  close_dump-reached unreachable c n = absurd (n refl)

  mandar_dump_memory-Returns :
      (pid : ℕ) (c : Cpu S)
      → Agrees (frame_of c.memory) c.tlb.entries
      → Returns (mandar_dump_memory program pid) c tt
  unfolding mandar_dump_memory
  mandar_dump_memory-Returns pid c h = record {
    after = record c { memory = (program.memory_dump pid c.memory).1 };
    result = close_dump-reached _ _ (serves.dump_reply pid c.memory);
    undisturbed = Undisturbed-memory c _ (serves.dump_keeps pid c.memory) h;
  }

  -- A request is answered from a table `found`, and dumped where that has nothing.
  with_dump-Returns :
      {A : Type 0} (found : Option A) (c : Cpu S)
      → Agrees (frame_of c.memory) c.tlb.entries
      → Returns (with_dump program (reply_of found)) c found
  with_dump-Returns (some a) c h = record {
    after = c;
    result = refl;
    undisturbed = Undisturbed-memory c c.memory (refl, refl) h;
  }
  with_dump-Returns none c h =
      let d = mandar_dump_memory-Returns c.pid c h in
      record { after = d.after; result = rw (d.result, ◌>>=◌) refl; undisturbed = d.undisturbed }

  pub find_frame_in_memory-Returns :
      (page : List ℕ) (pid : ℕ) (c : Cpu S)
      → Agrees (frame_of c.memory) c.tlb.entries
      → Returns (find_frame_in_memory program page pid) c (frame_of c.memory pid page)
  unfolding find_frame_in_memory
  find_frame_in_memory-Returns page pid c h =
      let keeps = serves.frame_keeps pid page c.memory in
      let s = (program.frame pid page c.memory).1 in
      let t = record c { memory = s } in
      let u = Undisturbed-memory c s keeps h in
      let d =
        with_dump-Returns (frame_of c.memory pid page) t
          (subst (λ f. Agrees f c.tlb.entries) (sym keeps.0) h) in
      record {
        after = d.after;
        result = rw (serves.frame_reply pid page c.memory) d.result;
        undisturbed = Undisturbed-trans c t d.after u d.undisturbed;
      }

  pub get_page_in_memory-Returns :
      (base : ℕ) (c : Cpu S)
      → Agrees (frame_of c.memory) c.tlb.entries
      → Returns (get_page_in_memory program base) c (page_of c.memory c.pid base)
  unfolding get_page_in_memory
  get_page_in_memory-Returns base c h =
      let keeps = serves.page_keeps c.pid base c.memory in
      let s = (program.full_page c.pid base c.memory).1 in
      let t = record c { memory = s } in
      let u = Undisturbed-memory c s keeps h in
      let d =
        with_dump-Returns (page_of c.memory c.pid base) t
          (subst (λ f. Agrees f c.tlb.entries) (sym keeps.0) h) in
      record {
        after = d.after;
        result = rw (serves.page_reply c.pid base c.memory) d.result;
        undisturbed = Undisturbed-trans c t d.after u d.undisturbed;
      }

  -- One operation behind another.
  pub Returns-then :
      {A B : Type 0} (m : Run S A) (f : A → Run S B) (c : Cpu S) (a : A) (b : B) (r : Returns m c a)
      → Returns (f a) r.after b
      → Returns (m >>= f) c b
  Returns-then m f c a b r q = record {
    after = q.after;
    result = rw (r.result, ◌>>=◌) q.result;
    undisturbed = Undisturbed-trans c r.after q.after r.undisturbed q.undisturbed;
  }

  -- Where the TLB has the page, it has the memory's frame.
  pub look_up-Returns :
      (page : List ℕ) (pid : ℕ) (c : Cpu S)
      → Agrees (frame_of c.memory) c.tlb.entries
      → (hit : Option ℕ) × Returns (look_up program page pid) c hit
        × ((frame : ℕ) → hit ≡ some frame → frame_of c.memory pid page ≡ some frame)
  unfolding look_up find_frame
  look_up-Returns page pid c h = elim (Bool-cases (c.tlb.capacity == 0)) [
    | inl e ↦ (
      none,
      record {
        after = c;
        result = rw (e, look_up) refl;
        undisturbed = Undisturbed-memory c c.memory (refl, refl) h;
      },
      λ frame f. absurd (cc),
    )
    | inr e ↦ (
      searched.0,
      record {
        after = record c { tlb = record c.tlb { entries = searched.1 }; readings = c.readings + 1 };
        result = rw (e, look_up) refl;
        undisturbed = record {
          same_conf = refl;
          same_cache = refl;
          same_enable = refl;
          same_pid = refl;
          same_exit = refl;
          same_pc = refl;
          same_interrupt = refl;
          same_instruction = refl;
          same_frames = refl;
          same_pages = refl;
          agrees = found.0;
        };
      },
      found.1,
    )
  ]
    where
      searched : Option ℕ × List TlbEntry
      searched = find_entry c.tlb.replacement_alg (c.time_at c.readings) page pid c.tlb.entries

      found :
          Agrees (frame_of c.memory) searched.1
          × ((frame : ℕ) → searched.0 ≡ some frame → frame_of c.memory pid page ≡ some frame)
      found =
          find_entry-Agrees (frame_of c.memory) c.tlb.replacement_alg (c.time_at c.readings) page
            pid c.tlb.entries h

  remembered-Returns :
      (page : List ℕ) (pid : ℕ) (found : Option ℕ) (c : Cpu S)
      → Agrees (frame_of c.memory) c.tlb.entries
      → frame_of c.memory pid page ≡ found
      → Returns (remembered program page pid found) c found
  unfolding remember
  remembered-Returns page pid none c h e = record {
    after = c;
    result = refl;
    undisturbed = Undisturbed-memory c c.memory (refl, refl) h;
  }
  remembered-Returns page pid (some frame) c h e = record {
    after = record c {
      tlb = add_entry_tlb (c.time_at c.readings) page frame pid c.tlb;
      readings = c.readings + 1;
    };
    result = refl;
    undisturbed = record {
      same_conf = refl;
      same_cache = refl;
      same_enable = refl;
      same_pid = refl;
      same_exit = refl;
      same_pc = refl;
      same_interrupt = refl;
      same_instruction = refl;
      same_frames = refl;
      same_pages = refl;
      agrees = Agrees-add (frame_of c.memory) (c.time_at c.readings) page frame pid c.tlb e h;
    };
  }

  after-Agrees :
      {A : Type 0} (m : Run S A) (c : Cpu S) (a : A) (r : Returns m c a)
      → Agrees (frame_of r.after.memory) r.after.tlb.entries
  after-Agrees m c a r =
      subst (λ f. Agrees f r.after.tlb.entries) (sym r.undisturbed.same_frames) r.undisturbed.agrees

  asked-Returns :
      (page : List ℕ) (pid : ℕ) (first : Option ℕ) (c : Cpu S)
      → Agrees (frame_of c.memory) c.tlb.entries
      → frame_of c.memory pid page ≡ first
      → Returns (ask_again program page pid first) c first
  asked-Returns page pid (some frame) c h e = record {
    after = c;
    result = refl;
    undisturbed = Undisturbed-memory c c.memory (refl, refl) h;
  }
  asked-Returns page pid none c h e =
      subst (λ f. Returns (find_frame_in_memory program page pid) c f) e
        (find_frame_in_memory-Returns page pid c h)

  or_memory-Returns :
      (page : List ℕ) (pid : ℕ) (hit : Option ℕ) (c : Cpu S)
      → Agrees (frame_of c.memory) c.tlb.entries
      → ((frame : ℕ) → hit ≡ some frame → frame_of c.memory pid page ≡ some frame)
      → Returns (or_memory program page pid hit) c (frame_of c.memory pid page)
  or_memory-Returns page pid (some frame) c h known = rw (known frame refl) (record {
    after = c;
    result = refl;
    undisturbed = Undisturbed-memory c c.memory (refl, refl) h;
  })
  or_memory-Returns page pid none c h known =
      let found = frame_of c.memory pid page in
      let one = find_frame_in_memory-Returns page pid c h in
      let same : frame_of one.after.memory pid page ≡ found =
        ap (λ f. f pid page) one.undisturbed.same_frames in
      let two = asked-Returns page pid found one.after (after-Agrees _ c found one) same in
      let three =
        remembered-Returns page pid found two.after (after-Agrees _ one.after found two)
          (ap (λ f. f pid page) two.undisturbed.same_frames ∙ same) in
      Returns-then (find_frame_in_memory program page pid) _ c found found one (
        Returns-then (ask_again program page pid found) (remembered program page pid) one.after
          found found two three)

  -- Traducir of a page is the memory program's own table of frames: it returns the frame that the
  -- memory program has for the page, or fails where that has none, whatever the TLB's algorithm
  -- and capacity, and leaves the cache, the frames and the pages as they were. The memory program
  -- serves one table of frames and one of pages, and the entries of the TLB agree with it before,
  -- which they do again afterwards.
  pub traducir_page-Returns :
      (page : List ℕ) (pid : ℕ) (c : Cpu S)
      → Agrees (frame_of c.memory) c.tlb.entries
      → Returns (traducir_page program page pid) c (frame_of c.memory pid page)
  unfolding traducir_page
  traducir_page-Returns page pid c h =
      let (hit, looked, known) = look_up-Returns page pid c h in
      let same : frame_of looked.after.memory pid page ≡ frame_of c.memory pid page =
        ap (λ f. f pid page) looked.undisturbed.same_frames in
      let asked =
        or_memory-Returns page pid hit looked.after (after-Agrees _ c hit looked)
          (λ frame e. same ∙ known frame e) in
      Returns-then (look_up program page pid) (or_memory program page pid) c hit
        (frame_of c.memory pid page) looked
        (subst (λ f. Returns (or_memory program page pid hit) looked.after f) same asked)
