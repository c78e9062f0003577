-- ===== src/Cpu/Keeping.antt =====
-- What the operations of cpu/memory leave alone, and that their loops have rounds enough: a view of
-- the CPU's variables that does not look at the TLB, the cache, the channel of the exits, or the
-- other programs.
use tp_sisop_go_utn.Cpu.State.{Cache, out_of_fuel, split_address, Stuck, Run, Cpu}
use tp_sisop_go_utn.Cpu.Tlb.{find_frame, Tlb}
use tp_sisop_go_utn.Cpu.Memory.{
  ask_again, find_frame_in_memory, get_page_in_memory, look_up, or_memory, remember, remembered,
  save_page_in_memory, saved, traducir, traducir_page, refused, unreachable, answered, ask,
  close_dump, with_dump, Reply, mandar_dump_memory, MemoryProgram,
}
use tp_sisop_go_utn.Base.{
  ◌==◌, List, ◌+◌, none, refl, false, if◌then◌else◌, true, ◌≡◌, ◌≢◌, ◌∙◌, Bool, Option, ℕ, some,
}
use tp_sisop_go_utn.Base.Outcome.{get, throw, Outcome, or_panic, pure, ◌>>=◌, done, fail, panic}

module _ {S X : Type 0} (view : Cpu S → X) where
  -- The view does not look at what the operations of cpu/memory change.
  pub record Blind : Type 0 where
    pub on_memory : (c : Cpu S) (s : S) → view (record c { memory = s }) ≡ view c
    pub on_tlb : (c : Cpu S) (t : Tlb) (n : ℕ) → view (record c { tlb = t; readings = n }) ≡ view c
    pub on_cache : (c : Cpu S) (k : Cache) → view (record c { cache = k }) ≡ view c
    pub on_exit : (c : Cpu S) (b : Bool) → view (record c { exit_pending = b }) ≡ view c

module _ {S X : Type 0} (view : Cpu S → X) (v : X) where
  -- Where it returns, the view is `v`, and the model's fuel is not used up.
  abbrev pub Left : {A : Type 0} → Outcome Stuck (Cpu S) A → Type 0
  Left (done a t) = view t ≡ v
  Left (fail e t) = e ≢ out_of_fuel
  Left panic = Unit {0}

  pub record Keeps {A : Type 0} (m : Run S A) : Type 0 where
    pub keeps : (c : Cpu S) → view c ≡ v → Left (m c)

  pub Keeps-pure : {A : Type 0} (a : A) → Keeps (pure a)
  Keeps-pure a = record { keeps = λ c h. h }

  pub Keeps-throw : {A : Type 0} (e : Stuck) → e ≢ out_of_fuel → Keeps (throw {A = A} e)
  Keeps-throw e other = record { keeps = λ c h. other }

  pub Keeps-bind :
      {A B : Type 0} {m : Run S A} {f : A → Run S B}
      → Keeps m
      → ((a : A) → Keeps (f a))
      → Keeps (m >>= f)
  Keeps-bind {m = m} {f = f} k next = record { keeps = λ c h. go (m c) (k.keeps c h) }
    where
      go :
          (o : Outcome Stuck (Cpu S) _)
          → Left o
          → Left (elim o [ done a t ↦ f a t | fail e t ↦ fail e t | panic ↦ panic ])
      go (done a t) h = (next a).keeps t h
      go (fail e t) h = h
      go panic h = tt

  pub Keeps-test :
      {A : Type 0} {m n : Run S A} (b : Bool)
      → Keeps m
      → (b ≡ false → Keeps n)
      → Keeps (if b then m else n)
  Keeps-test true k l = k
  Keeps-test false k l = l refl

  pub Keeps-if :
      {A : Type 0} {m n : Run S A} (b : Bool) → Keeps m → Keeps n → Keeps (if b then m else n)
  Keeps-if b k l = Keeps-test b k (λ e. l)

  pub Keeps-or_panic : {A : Type 0} (o : Option A) → Keeps (or_panic o)
  Keeps-or_panic none = record { keeps = λ c h. tt }
  Keeps-or_panic (some a) = record { keeps = λ c h. h }

  -- A test of the variables, as they are then.
  pub Keeps-get :
      {A : Type 0} {f : Cpu S → Run S A}
      → ((c : Cpu S) → view c ≡ v → Keeps (f c))
      → Keeps (get >>= f)
  Keeps-get k = record { keeps = λ c h. (k c h).keeps c h }

  module _ (program : MemoryProgram S) (blind : Blind view) where
    Keeps-ask : {A : Type 0} (request : S → Reply A × S) → Keeps (ask program request)
    Keeps-ask request = record { keeps = λ c h. blind.on_memory c (request c.memory).1 ∙ h }

    Keeps-close_dump : (r : Reply (Unit {0})) → Keeps (close_dump program r)
    Keeps-close_dump unreachable = record { keeps = λ c h. tt }
    Keeps-close_dump (answered a) = Keeps-pure tt
    Keeps-close_dump refused = Keeps-pure tt

    Keeps-mandar_dump_memory : (pid : ℕ) → Keeps (mandar_dump_memory program pid)
    unfolding mandar_dump_memory
    Keeps-mandar_dump_memory pid =
        Keeps-bind (Keeps-ask (program.memory_dump pid)) λ r. Keeps-close_dump r

    Keeps-with_dump : {A : Type 0} (r : Reply A) → Keeps (with_dump program r)
    Keeps-with_dump (answered a) = Keeps-pure (some a)
    Keeps-with_dump refused =
        Keeps-get λ c h. Keeps-bind (Keeps-mandar_dump_memory c.pid) λ u. Keeps-pure none
    Keeps-with_dump unreachable =
        Keeps-get λ c h. Keeps-bind (Keeps-mandar_dump_memory c.pid) λ u. Keeps-pure none

    Keeps-find_frame : (page : List ℕ) (pid : ℕ) → Keeps (find_frame_in_memory program page pid)
    unfolding find_frame_in_memory
    Keeps-find_frame page pid =
        Keeps-bind (Keeps-ask (program.frame pid page)) λ r. Keeps-with_dump r

    pub Keeps-get_page : (base : ℕ) → Keeps (get_page_in_memory program base)
    unfolding get_page_in_memory
    Keeps-get_page base =
        Keeps-get
          λ c h. Keeps-bind (Keeps-ask (program.full_page c.pid base)) λ r. Keeps-with_dump r

    pub Keeps-look_up : (page : List ℕ) (pid : ℕ) → Keeps (look_up program page pid)
    unfolding look_up
    Keeps-look_up page pid = record { keeps = λ c h. looked c h (c.tlb.capacity == 0) }
      where
        looked :
            (c : Cpu S)
            → view c ≡ v
            → (b : Bool)
            → Left (
                if b
                then done none c
                else let (frame, tlb) = find_frame (c.time_at c.readings) page pid c.tlb in
                  done frame (record c { tlb = tlb; readings = c.readings + 1 }))
        looked c h true = h
        looked c h false = blind.on_tlb c _ _ ∙ h

    Keeps-remember : (page : List ℕ) (frame pid : ℕ) → Keeps (remember program page frame pid)
    unfolding remember
    Keeps-remember page frame pid = record { keeps = λ c h. blind.on_tlb c _ _ ∙ h }

    Keeps-remembered :
        (page : List ℕ) (pid : ℕ) (r : Option ℕ) → Keeps (remembered program page pid r)
    Keeps-remembered page pid none = Keeps-pure none
    Keeps-remembered page pid (some frame) =
        Keeps-bind (Keeps-remember page frame pid) λ u. Keeps-pure (some frame)

    Keeps-ask_again :
        (page : List ℕ) (pid : ℕ) (r : Option ℕ) → Keeps (ask_again program page pid r)
    Keeps-ask_again page pid (some frame) = Keeps-pure (some frame)
    Keeps-ask_again page pid none = Keeps-find_frame page pid

    Keeps-or_memory :
        (page : List ℕ) (pid : ℕ) (r : Option ℕ) → Keeps (or_memory program page pid r)
    Keeps-or_memory page pid (some frame) = Keeps-pure (some frame)
    Keeps-or_memory page pid none = Keeps-bind (Keeps-find_frame page pid) λ first.
        Keeps-bind (Keeps-ask_again page pid first) λ second. Keeps-remembered page pid second

    pub Keeps-traducir_page : (page : List ℕ) (pid : ℕ) → Keeps (traducir_page program page pid)
    unfolding traducir_page
    Keeps-traducir_page page pid =
        Keeps-bind (Keeps-look_up page pid) λ hit. Keeps-or_memory page pid hit

    pub Keeps-traducir : (addr : List ℕ) (pid : ℕ) → Keeps (traducir program addr pid)
    unfolding traducir
    Keeps-traducir addr pid = by_page (split_address addr)
      where
        by_page :
            (a : Option (List ℕ × ℕ))
            → Keeps {A = Option ℕ}
                (elim a [ none ↦ pure none | some (page, delta) ↦ traducir_page program page pid ])
        by_page none = Keeps-pure none
        by_page (some (page, delta)) = Keeps-traducir_page page pid

    Keeps-saved : (pid : ℕ) (r : Reply (Unit {0})) → Keeps (saved program pid r)
    Keeps-saved pid (answered a) = Keeps-pure true
    Keeps-saved pid refused = Keeps-bind (Keeps-mandar_dump_memory pid) λ u. Keeps-pure true
    Keeps-saved pid unreachable = Keeps-bind (Keeps-mandar_dump_memory pid) λ u. Keeps-pure false

    pub Keeps-save_page :
        (page addr : List ℕ) (pid : Option ℕ) → Keeps (save_page_in_memory program page addr pid)
    unfolding save_page_in_memory
    Keeps-save_page page addr none = Keeps-pure true
    Keeps-save_page page addr (some pid) = Keeps-bind (Keeps-traducir_page addr pid) λ translated.
        Keeps-bind (Keeps-or_panic translated)
          λ base. Keeps-bind (Keeps-ask (program.save_page pid base page)) λ r. Keeps-saved pid r
