-- ===== src/Tests/ManagerTests.antt =====
-- The writer thread and the life of a manager on small inputs.
use p.Common.{
  zero, suc, ℕ, ◌^◌, ◌≡◌, ◌<◌, All, refl, true, false, List, [], ◌∷◌, none, some, length, arith,
  replicate,
}
use p.Serial.Writer.{Item, bytes_item, other_item, batch_bytes, WriterRound, Writer}
use p.Serial.Writer.Coalesce.{items_of, total_length}
use p.Serial.Writer.Round.{IsWriting, Wrote, writer_round-drops}
use p.Serial.Writer.Thread.{Turn, IsSteady, Steady, none_left, then_turn, Ran, writer_run-Ran}
use p.Serial.Manager.{
  Creations, succeeds, fails, no_perf, InitAnswers, bad_arguments, allocated, init, dealloc, closes,
}
use p.Serial.Manager.States.{Command, starts, shuts_down, asks, Balanced, life}
use p.Serial.Manager.Cycle.{
  Has, IsConsistent, reached, life-Balanced, dealloc-init, reached-IsConsistent,
}

abbrev pub idle_writer : Writer
idle_writer = record {
  buf = record { size = batch_bytes; cell = λ i. 0 };
  cpu = record { prev_ns = 0; sample_ctr = 0 };
  perf = no_perf;
}

-- The queue gives these bytes first, and then these items.
abbrev pub round : List ℕ → List Item → WriterRound
round xs items = record {
  alive = true;
  now_ns = 1;
  py_enabled = true;
  first = some (bytes_item xs);
  alive_popped = true;
  enabled_popped = true;
  items = items;
  fd_open = true;
}

round-IsWriting : (xs : List ℕ) (items : List Item) → IsWriting (round xs items) xs
round-IsWriting xs items = record {
  alive = refl;
  py_enabled = refl;
  first = refl;
  alive_popped = refl;
  enabled_popped = refl;
  fd_open = refl;
}

abbrev mixed : List Item
mixed = bytes_item (4 ∷ []) ∷ other_item ∷ bytes_item (5 ∷ []) ∷ []

-- As many bytes as the buffer has.
abbrev buffer_full : List ℕ
buffer_full = replicate (2 ^ 16) 6

length-replicate : (n : ℕ) → length (replicate {A = ℕ} n 6) ≡ n
length-replicate zero = refl
length-replicate (suc n) = omega (arith, length-replicate n)

writer_round-drops_example :
    Wrote idle_writer (round (3 ∷ []) (bytes_item buffer_full ∷ [])) (3 ∷ []) []
writer_round-drops_example =
    writer_round-drops idle_writer (round (3 ∷ []) (bytes_item buffer_full ∷ [])) (3 ∷ [])
      buffer_full [] refl (round-IsWriting (3 ∷ []) _) refl (omega arith) (omega arith)
      (omega (arith, length-replicate (2 ^ 16)))

abbrev all_well : InitAnswers
all_well = record {
  parsed = true;
  queue_like = true;
  port_memory = true;
  methods = true;
  block = some (λ i. 0);
}

abbrev no_arguments : InitAnswers
no_arguments = record {
  parsed = false;
  queue_like = true;
  port_memory = true;
  methods = true;
  block = none;
}

abbrev all_created : Creations
all_created = record { read_thread = succeeds; write_thread = succeeds; deliver_thread = succeeds }

-- The writer is not created, and its identifier is left with some value.
abbrev one_missing : Creations
one_missing = record {
  read_thread = succeeds;
  write_thread = fails true;
  deliver_thread = succeeds;
}

abbrev commands : List Command
commands =
    starts none all_created
    ∷ starts (some 3) all_created
    ∷ asks true
    ∷ shuts_down
    ∷ starts (some 4) one_missing
    ∷ []

life-Balanced_example : Balanced (life (init all_well allocated).0 commands)
life-Balanced_example = life-Balanced all_well allocated (init all_well allocated).0 commands well
  where
    well : init all_well allocated ≡ ((init all_well allocated).0, none)
    well = unfold init in refl

reached-IsConsistent_example :
    IsConsistent
      (λ fd c. Has (starts (some fd) c) commands)
      (reached (init all_well allocated).0 commands)
reached-IsConsistent_example =
    reached-IsConsistent all_well allocated (init all_well allocated).0 commands
      (unfold init in refl)

dealloc-init_example : dealloc (init no_arguments allocated).0 ≡ closes 0 ∷ []
dealloc-init_example =
    dealloc-init no_arguments (init no_arguments allocated).0 bad_arguments (unfold init in refl)

abbrev turn : List (List ℕ) → Turn
turn xss = record {
  arrives = items_of xss;
  alive = true;
  now_ns = 5;
  py_enabled = true;
  alive_popped = true;
  enabled_popped = true;
  fd_open = true;
}

turn-IsSteady :
    (xss : List (List ℕ))
    → All (λ (xs : List ℕ). 0 < length xs) xss
    → total_length xss < batch_bytes
    → IsSteady (turn xss) xss
turn-IsSteady xss filled fits = record {
  arrives = refl;
  filled = filled;
  fits = fits;
  alive = refl;
  py_enabled = refl;
  alive_popped = refl;
  enabled_popped = refl;
  fd_open = refl;
}

abbrev turns : List Turn
turns = turn ((4 ∷ []) ∷ (5 ∷ 6 ∷ []) ∷ []) ∷ turn [] ∷ turn ((7 ∷ []) ∷ []) ∷ []

turns-Steady : Steady turns (4 ∷ 5 ∷ 6 ∷ 7 ∷ [])
turns-Steady =
    then_turn ((4 ∷ []) ∷ (5 ∷ 6 ∷ []) ∷ [])
      (turn-IsSteady _ (omega arith, (omega arith, tt)) (omega arith))
      (then_turn [] (turn-IsSteady [] tt (omega arith))
        (then_turn ((7 ∷ []) ∷ []) (turn-IsSteady _ (omega arith, tt) (omega arith)) none_left))

writer_run-Ran_example : Ran idle_writer turns 9 (4 ∷ 5 ∷ 6 ∷ 7 ∷ [])
writer_run-Ran_example = writer_run-Ran idle_writer 9 turns-Steady refl (omega arith)
