-- ===== src/Serial/Manager/States.antt =====
-- The commands that a program can give a SerialManager, the two states that they lead to, and the
-- effects of a life.
use p.Common.{ℕ, ◌≡◌, refl, Bool, true, false, List, [], ◌∷◌, ◌++◌, Option, none, some}
use p.Serial.Manager.{
  strays, joins_stray, zero_id, Creations, id_of, creations, joined, Worker, reader, writer,
  deliverer, Effect, opens, closes, creates, joins, Manager, start, started, shutdown, dealloc,
  get_perf_stats,
}

pub data Command : Type 0 where
  starts : Option ℕ → Creations → Command
  shuts_down : Command
  asks : Bool → Command

abbrev pub step : Manager → Command → Manager × List Effect
step m (starts opened c) = let (m', failed, effects) = start m opened c in (m', effects)
step m shuts_down = shutdown m
step m (asks memory) = ((get_perf_stats m memory).0, [])

-- The commands, and then dealloc.
unfoldable pub life : Manager → List Command → List Effect
life m [] = dealloc m
life m (c ∷ cs) = (step m c).1 ++ life (step m c).0 cs

abbrev pub opened : List Effect → List ℕ
opened [] = []
opened (opens fd ∷ es) = fd ∷ opened es
opened (closes fd ∷ es) = opened es
opened (creates w ∷ es) = opened es
opened (joins w ∷ es) = opened es
opened (strays w ∷ es) = opened es
opened (joins_stray w ∷ es) = opened es

abbrev pub closed : List Effect → List ℕ
closed [] = []
closed (opens fd ∷ es) = closed es
closed (closes fd ∷ es) = fd ∷ closed es
closed (creates w ∷ es) = closed es
closed (joins w ∷ es) = closed es
closed (strays w ∷ es) = closed es
closed (joins_stray w ∷ es) = closed es

abbrev pub created : List Effect → List Worker
created [] = []
created (opens fd ∷ es) = created es
created (closes fd ∷ es) = created es
created (creates w ∷ es) = w ∷ created es
created (joins w ∷ es) = created es
created (strays w ∷ es) = created es
created (joins_stray w ∷ es) = created es

abbrev pub ended : List Effect → List Worker
ended [] = []
ended (opens fd ∷ es) = ended es
ended (closes fd ∷ es) = ended es
ended (creates w ∷ es) = ended es
ended (joins w ∷ es) = w ∷ ended es
ended (strays w ∷ es) = ended es
ended (joins_stray w ∷ es) = ended es

abbrev pub astray : List Effect → List Worker
astray [] = []
astray (opens fd ∷ es) = astray es
astray (closes fd ∷ es) = astray es
astray (creates w ∷ es) = astray es
astray (joins w ∷ es) = astray es
astray (strays w ∷ es) = w ∷ astray es
astray (joins_stray w ∷ es) = astray es

abbrev pub joined_astray : List Effect → List Worker
joined_astray [] = []
joined_astray (opens fd ∷ es) = joined_astray es
joined_astray (closes fd ∷ es) = joined_astray es
joined_astray (creates w ∷ es) = joined_astray es
joined_astray (joins w ∷ es) = joined_astray es
joined_astray (strays w ∷ es) = joined_astray es
joined_astray (joins_stray w ∷ es) = w ∷ joined_astray es

-- No descriptor and no thread; and a descriptor with the identifiers that a start has left
pub record IsIdle (m : Manager) : Type 0 where
  pub fd : m.fd ≡ none
  pub alive : m.alive ≡ false
  pub read_thread : m.read_thread ≡ zero_id
  pub write_thread : m.write_thread ≡ zero_id
  pub deliver_thread : m.deliver_thread ≡ zero_id

pub record IsLive (fd : ℕ) (c : Creations) (m : Manager) : Type 0 where
  pub at : m.fd ≡ some fd
  pub alive : m.alive ≡ true
  pub py_enabled : m.py_enabled ≡ true
  pub read_thread : m.read_thread ≡ id_of c.read_thread
  pub write_thread : m.write_thread ≡ id_of c.write_thread
  pub deliver_thread : m.deliver_thread ≡ id_of c.deliver_thread

-- Each descriptor that the first effects open is closed by the others, each thread that they
-- create is joined, and so is each identifier that their failures leave, in this order.
abbrev pub Paired : List Effect → List Effect → Type 0
Paired es fs = (opened es ≡ closed fs) × (created es ≡ ended fs) × (astray es ≡ joined_astray fs)

-- What the effects of a life are to show in these states.
abbrev pub Balanced : List Effect → Type 0
Balanced es = Paired es es

abbrev pub Owes : ℕ → Creations → List Effect → Type 0
Owes fd c es = Paired (opens fd ∷ (creations c ++ es)) es

abbrev pub ends_with : ℕ → Creations → List Effect
ends_with fd c =
    (joined (id_of c.read_thread) reader
      ++ joined (id_of c.write_thread) writer
      ++ joined (id_of c.deliver_thread) deliverer)
    ++ (closes fd ∷ [])

pub shutdown_idle : (m : Manager) → IsIdle m → (shutdown m).1 ≡ []
unfolding shutdown
shutdown_idle m h = rw (h.fd, h.read_thread, h.write_thread, h.deliver_thread) refl

pub shutdown_live :
    (fd : ℕ) (c : Creations) (m : Manager) → IsLive fd c m → (shutdown m).1 ≡ ends_with fd c
unfolding shutdown
shutdown_live fd c m h = rw (h.at, h.read_thread, h.write_thread, h.deliver_thread) refl

pub shutdown-IsIdle : (m : Manager) → IsIdle (shutdown m).0
unfolding shutdown
shutdown-IsIdle m = record {
  fd = refl;
  alive = refl;
  read_thread = refl;
  write_thread = refl;
  deliver_thread = refl;
}

pub dealloc-shutdown : (m : Manager) → dealloc m ≡ (shutdown m).1
unfolding dealloc shutdown
dealloc-shutdown m = refl

pub start_idle :
    (m : Manager) (fd : ℕ) (c : Creations)
    → IsIdle m
    → (m' : Manager) × (step m (starts (some fd) c) ≡ (m', opens fd ∷ creations c)) × IsLive fd c m'
unfolding start
start_idle m fd c h = (
  started m fd c,
  rw (h.fd) refl,
  record {
    at = refl;
    alive = refl;
    py_enabled = refl;
    read_thread = refl;
    write_thread = refl;
    deliver_thread = refl;
  },
)

pub start_fails : (m : Manager) (c : Creations) → IsIdle m → step m (starts none c) ≡ (m, [])
unfolding start
start_fails m c h = rw (h.fd) refl

pub start_live :
    (m : Manager) (fd : ℕ) (c : Creations) (o : Option ℕ) (c' : Creations)
    → IsLive fd c m
    → step m (starts o c') ≡ (m, [])
unfolding start
start_live m fd c o c' h = rw (h.at) refl

pub stats-IsIdle : (m : Manager) (memory : Bool) → IsIdle m → IsIdle (get_perf_stats m memory).0
unfolding get_perf_stats
stats-IsIdle m true h = record {
  fd = h.fd;
  alive = h.alive;
  read_thread = h.read_thread;
  write_thread = h.write_thread;
  deliver_thread = h.deliver_thread;
}
stats-IsIdle m false h = h

pub stats-IsLive :
    (fd : ℕ) (c : Creations) (m : Manager) (memory : Bool)
    → IsLive fd c m
    → IsLive fd c (get_perf_stats m memory).0
unfolding get_perf_stats
stats-IsLive fd c m true h = record {
  at = h.at;
  alive = h.alive;
  py_enabled = h.py_enabled;
  read_thread = h.read_thread;
  write_thread = h.write_thread;
  deliver_thread = h.deliver_thread;
}
stats-IsLive fd c m false h = h
