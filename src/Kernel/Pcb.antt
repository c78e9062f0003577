-- ===== src/Kernel/Pcb.antt =====
-- utils/pcb/pcb.go: the process control block and its metrics. Times are nanoseconds of the
-- monotonic clock, and `now` is what time.Now returns.
use tp_sisop_go_utn.Base.{Bool, true, false, [], List, ◌∷◌, if◌then◌else◌, ℕ, ◌-◌, ◌+◌, ◌++◌}
use tp_sisop_go_utn.Utils.Strings.{Text}

-- STATE
pub data State : Type 0 where
  exit new ready exec blocked susp_blocked susp_ready : State

pub State-discrete : Discrete State
State-discrete = hlevel

abbrev pub eq_state : State → State → Bool
eq_state exit exit = true
eq_state new new = true
eq_state ready ready = true
eq_state exec exec = true
eq_state blocked blocked = true
eq_state susp_blocked susp_blocked = true
eq_state susp_ready susp_ready = true
eq_state _ _ = false

-- kernel_metrics. The arrays over the states are functions.
pub record KernelMetrics : Type 0 where
  pub sequence_list : List State
  pub instants_list : List ℕ
  pub frequency : State → ℕ
  pub time_spent : State → ℕ

-- PCB
pub record Pcb : Type 0 where
  pub pid : ℕ
  pub state : State
  pub pc : ℕ
  pub k_metrics : KernelMetrics
  pub code_file_path : Text

-- `array[i] = v`
abbrev pub put : State → ℕ → (State → ℕ) → State → ℕ
put i v array j = if eq_state i j then v else array j

-- The time between the last two of the instants, where there are two.
unfoldable pub last_duration : List ℕ → ℕ
last_duration [] = 0
last_duration (a ∷ []) = 0
last_duration (a ∷ b ∷ []) = b - a
last_duration (a ∷ b ∷ c ∷ rest) = last_duration (b ∷ c ∷ rest)

abbrev count_entry : State → (State → ℕ) → State → ℕ
count_entry s frequency =
    if eq_state s new then put s 1 frequency else put s (frequency s + 1) frequency

-- SetState
unfoldable pub set_state : ℕ → State → Pcb → Pcb
set_state now new_state pcb =
    let m = pcb.k_metrics in
    let instants = m.instants_list ++ now ∷ [] in
    record pcb {
      state = new_state;
      k_metrics = record {
        sequence_list = m.sequence_list ++ new_state ∷ [];
        instants_list = instants;
        frequency = count_entry new_state m.frequency;
        time_spent = put new_state (m.time_spent new_state + last_duration instants) m.time_spent;
      };
    }

abbrev pub zero_pcb : ℕ → Text → Pcb
zero_pcb pid path = record {
  pid = pid;
  state = exit;
  pc = 0;
  k_metrics = record {
    sequence_list = [];
    instants_list = [];
    frequency = λ s. 0;
    time_spent = λ s. 0;
  };
  code_file_path = path;
}

-- Create
unfoldable pub create : ℕ → ℕ → Text → Pcb
unfolding set_state
create now pid path = set_state now new (zero_pcb pid path)

-- The states that a block is put in, one behind the other, with the times.
unfoldable pub set_states : List (ℕ × State) → Pcb → Pcb
set_states [] pcb = pcb
set_states ((now, s) ∷ rest) pcb = set_states rest (set_state now s pcb)
