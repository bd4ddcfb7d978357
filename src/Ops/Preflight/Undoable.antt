-- ===== src/Ops/Preflight/Undoable.antt =====
-- The repointing that relink.cpp and move.cpp share can be undone at every point, and what it writes.
use wsldisk.Base.{
  ℕ, Bytes, txt, fmt, is_empty, false, some, List, [], ◌∷◌, ◌≡◌, inl, inr, arith, Bool-cases,
}
use wsldisk.Errors.{ok, err, Error, Result-cases}
use wsldisk.Effects.{◌>>=◌}
use wsldisk.Effects.Steps.{bind-keeps, bind-eq-ok}
use wsldisk.WinPath.{Wide}
use wsldisk.Interfaces.{Platform}
use wsldisk.Model.Distro.{Distro, registry_key_for}
use wsldisk.Ops.Operation.{Context, call, modify}
use wsldisk.Ops.Undo.{Entry, push, returning}
use wsldisk.Ops.Undo.Restore.{Chain}
use wsldisk.Ops.Observed.{Observed}
use wsldisk.Ops.Observed.Look.{
  View, IsCurrent, look, look-write_base, look-write_vhd, look-write_failed,
}
use wsldisk.Ops.Preflight.{
  base_path_value, vhd_file_name_value, write_undoably, repoint_name, repoint_registry,
}

-- The stack that an operation keeps among its members.
module _ (P : Platform) {X : Type 0}
    (put_undo : (List (Entry P.World) → List (Entry P.World)) → X → X)
    (key name content previous : Wide) (d : Bytes) (s : Context P.World X) where
  pub write_undoably_done :
      (P.write_string key name content s.world).0 ≡ ok tt
      → write_undoably P put_undo key name content previous d s ≡ (
        ok tt,
        record s {
          world = (P.write_string key name content s.world).1;
          self = put_undo (push d (returning (P.write_string key name previous))) s.self;
        },
      )
  unfolding write_undoably
  write_undoably_done h = rw (h, ◌>>=◌)

  pub write_undoably_wrote :
      {u : Unit {0}}
      → (write_undoably P put_undo key name content previous d s).0 ≡ ok u
      → (P.write_string key name content s.world).0 ≡ ok tt
  unfolding write_undoably
  write_undoably_wrote h =
      let r =
        bind-eq-ok (call (P.write_string key name content))
          (λ _. modify (put_undo (push d (returning (P.write_string key name previous))))) s h in
      r.1

  pub write_undoably_failed :
      {e : Error}
      → (P.write_string key name content s.world).0 ≡ err e
      → write_undoably P put_undo key name content previous d s
        ≡ (err e, record s { world = (P.write_string key name content s.world).1 })
  unfolding write_undoably
  write_undoably_failed h = rw (h, ◌>>=◌)

module _ (P : Platform) (O : Observed P) (key : Wide) (from to : ℕ) {X : Type 0}
    (stack : X → List (Entry P.World))
    (put_undo : (List (Entry P.World) → List (Entry P.World)) → X → X)
    (put : (f : List (Entry P.World) → List (Entry P.World)) (x : X)
      → stack (put_undo f x) ≡ f (stack x))
    (start : View) where
  -- Unwinding the stack leads back to what the world looked like at the start.
  abbrev pub Undoable : Context P.World X → Type 0
  Undoable s = Chain (look P O key from to) (stack s.self) (look P O key from to s.world) start

  write_pushes :
      (name content previous : Wide) (d : Bytes) (s : Context P.World X)
      → ((w : P.World)
          → (P.write_string key name content s.world).0 ≡ ok tt
          → look P O key from to w
            ≡ look P O key from to (P.write_string key name content s.world).1
          → (P.write_string key name previous w).0 ≡ ok tt
          → look P O key from to (P.write_string key name previous w).1
            ≡ look P O key from to s.world)
      → Undoable s
      → Undoable (write_undoably P put_undo key name content previous d s).1
  unfolding push
  write_pushes name content previous d s back c =
      elim (Result-cases (P.write_string key name content s.world).0) [
        | inl (e, h) ↦
            rw (write_undoably_failed P put_undo key name content previous d s h)
              (rw (look-write_failed P O key from to name content s.world e h) c)
        | inr (u, h) ↦ rw (write_undoably_done P put_undo key name content previous d s h) (
            rw (put (push d (returning (P.write_string key name previous))) s.self)
              (look P O key from to s.world, λ w same done. back w h same (cc), c))
      ]

  base_undone :
      (content previous : Wide) (s w : P.World)
      → (look P O key from to s).base ≡ some previous
      → (P.write_string key base_path_value content s).0 ≡ ok tt
      → look P O key from to w
        ≡ look P O key from to (P.write_string key base_path_value content s).1
      → (P.write_string key base_path_value previous w).0 ≡ ok tt
      → look P O key from to (P.write_string key base_path_value previous w).1
        ≡ look P O key from to s
  base_undone content previous s w now written same done =
      rw (look-write_base P O key from to previous w done)
        (ground (arith, look-write_base P O key from to content s written))

  vhd_undone :
      (content previous : Wide) (s w : P.World)
      → (look P O key from to s).vhd ≡ some previous
      → (P.write_string key vhd_file_name_value content s).0 ≡ ok tt
      → look P O key from to w
        ≡ look P O key from to (P.write_string key vhd_file_name_value content s).1
      → (P.write_string key vhd_file_name_value previous w).0 ≡ ok tt
      → look P O key from to (P.write_string key vhd_file_name_value previous w).1
        ≡ look P O key from to s
  vhd_undone content previous s w now written same done =
      rw (look-write_vhd P O key from to previous w done)
        (ground (arith, look-write_vhd P O key from to content s written))

module _ (P : Platform) (O : Observed P) (distro : Distro) (from to : ℕ) {X : Type 0}
    (stack : X → List (Entry P.World))
    (put_undo : (List (Entry P.World) → List (Entry P.World)) → X → X)
    (put : (f : List (Entry P.World) → List (Entry P.World)) (x : X)
      → stack (put_undo f x) ≡ f (stack x))
    (start : View) where
  repoint_name-Undoable :
      (file_name : Wide) (s : Context P.World X)
      → (is_empty distro.vhd_file_name ≡ false
          → (look P O (registry_key_for distro) from to s.world).vhd ≡ some distro.vhd_file_name)
      → Undoable P O (registry_key_for distro) from to stack put_undo put start s
      → Undoable P O
          (registry_key_for distro)
          from
          to
          stack
          put_undo
          put
          start
          (repoint_name P put_undo distro file_name s).1
  unfolding repoint_name
  repoint_name-Undoable file_name s now c = elim (Bool-cases (is_empty distro.vhd_file_name)) [
    | inl absent ↦ rw absent c
    | inr present ↦ rw present (
        write_pushes P O (registry_key_for distro) from to stack put_undo put start _ _ _ _ s
          (λ w h.
            vhd_undone P O (registry_key_for distro) from to stack put_undo put start _ _ s.world w
              (now present) h)
          c)
  ]

  -- Wherever the repointing stops, what it did can be undone.
  pub repoint_registry-Undoable :
      (base_path file_name : Wide) (s : Context P.World X)
      → IsCurrent distro (look P O (registry_key_for distro) from to s.world)
      → Undoable P O (registry_key_for distro) from to stack put_undo put start s
      → Undoable P O
          (registry_key_for distro)
          from
          to
          stack
          put_undo
          put
          start
          (repoint_registry P put_undo distro base_path file_name s).1
  unfolding repoint_registry
  repoint_registry-Undoable base_path file_name s current c =
      let key = registry_key_for distro in
      let d = fmt (txt "restore " ∷ distro.name ∷ txt "'s BasePath" ∷ []) in
      let first = write_undoably P put_undo key base_path_value base_path distro.base_path d in
      bind-keeps first (λ _. repoint_name P put_undo distro file_name) s
        (Undoable P O key from to stack put_undo put start)
        (write_pushes P O key from to stack put_undo put start _ _ _ d s
          (λ w h. base_undone P O key from to stack put_undo put start _ _ s.world w current.base h)
          c)
        λ u h.
          let wrote =
            write_undoably_wrote P put_undo key base_path_value base_path distro.base_path d s h in
          repoint_name-Undoable file_name (first s).1
            (λ present.
              rw
                (write_undoably_done P put_undo key base_path_value base_path distro.base_path d s
                  wrote)
                (rw (look-write_base P O key from to base_path s.world wrote)
                  (current.vhd present)))
            (write_pushes P O key from to stack put_undo put start _ _ _ d s
              (λ w h'.
                base_undone P O key from to stack put_undo put start _ _ s.world w current.base h')
              c)
