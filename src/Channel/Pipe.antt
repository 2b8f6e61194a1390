-- ===== src/Channel/Pipe.antt =====
-- What src/channel.rs promises to those who hold the handles of a channel: a queue that is
-- disconnected once no sender, or no receiver, is left.
use crossbeam_channel.Common.{ℕ, ◌+◌, ◌-◌, ◌≤◌, ◌<◌, ◌||◌, ◌==◌, List, [], ◌∷◌, Option}
use crossbeam_channel.Queue
use crossbeam_channel.Queue.{
  Queue, Call, send, recv, count, asks_empty, asks_full, disconnects, Reply, closed,
}
use crossbeam_channel.Channel.{isize_max}

-- What is done through a handle.
pub data Use (A : Type 0) : Type 0 where
  method : Call A → Use A
  clone_sender : Use A
  drop_sender : Use A
  clone_receiver : Use A
  drop_receiver : Use A

pub record Pipe (A : Type 0) : Type 0 where
  pub items : List A
  pub senders : ℕ
  pub receivers : ℕ

module _ {A : Type 0} where
  abbrev pub queue_of : Pipe A → Queue A
  queue_of p = record { items = p.items; dead = (p.senders == 0) || (p.receivers == 0) }

  -- A method leaves the handles alone; to clone or drop one leaves the messages alone.
  abbrev pub pipe_step : Option ℕ → Use A → Pipe A → Reply A × Pipe A
  pipe_step cap (method k) p =
      let (reply, s) = Queue.step cap k (queue_of p) in (reply, record p { items = s.items })
  pipe_step cap clone_sender p = (closed, record p { senders = p.senders + 1 })
  pipe_step cap drop_sender p = (closed, record p { senders = p.senders - 1 })
  pipe_step cap clone_receiver p = (closed, record p { receivers = p.receivers + 1 })
  pipe_step cap drop_receiver p = (closed, record p { receivers = p.receivers - 1 })

  unfoldable pub pipe_run : Option ℕ → List (Use A) → Pipe A → List (Reply A) × Pipe A
  pipe_run cap [] p = ([], p)
  pipe_run cap (u ∷ us) p =
      let (reply, p') = pipe_step cap u p in
      let (replies, end) = pipe_run cap us p' in (reply ∷ replies, end)

  -- There is a handle to do it through; and at most `isize::MAX` handles are cloned.
  abbrev pub Allowed : Use A → Pipe A → Type 0
  Allowed (method (send x)) p = 0 < p.senders
  Allowed (method recv) p = 0 < p.receivers
  Allowed (method count) p = 0 < p.senders + p.receivers
  Allowed (method asks_empty) p = 0 < p.senders + p.receivers
  Allowed (method asks_full) p = 0 < p.senders + p.receivers
  Allowed (method disconnects) p = ⊥
  Allowed clone_sender p = (0 < p.senders) × (p.senders ≤ isize_max)
  Allowed drop_sender p = (0 < p.senders) × (p.senders ≤ isize_max + 1)
  Allowed clone_receiver p = (0 < p.receivers) × (p.receivers ≤ isize_max)
  Allowed drop_receiver p = (0 < p.receivers) × (p.receivers ≤ isize_max + 1)

  abbrev pub AllAllowed : Option ℕ → List (Use A) → Pipe A → Type 0
  AllAllowed cap [] p = Unit {0}
  AllAllowed cap (u ∷ us) p = Allowed u p × AllAllowed cap us (pipe_step cap u p).1
