-- ===== src/Backend/WorkspaceLoop/Live.antt =====
-- The workspace event loop and the goroutines that it has started: workspace_event_loop.go.
pub mod Proceeds
use managed_gitops.Base.{
  ℕ, suc, ◌<◌, ◌≡◌, ◌≢◌, refl, sym, ap, ◌∙◌, Bool, true, false, Option, none, some, List, [], ◌∷◌,
  String, ◌==◌, eq_iff, eqb, if◌then◌else◌, ◌⊎◌, inl, inr, Bool-cases, Option-cases, arith,
}
use managed_gitops.Base.Map.{
  Map, lookup, insert, delete, HasKeys, lookup-insert, lookup-delete, insert-HasKeys,
  delete-HasKeys,
}
use managed_gitops.Backend.AppLoop
use managed_gitops.Backend.AppLoop.{
  RequestMessage, Effect, respond, to_deployment_runner, to_sync_runner, start_timer, panics,
  returns, process, work_rejected,
}
use managed_gitops.Backend.AppLoop.Sound.{IsSound, Answers, Good, process-IsSound, initial-IsSound}
use managed_gitops.Backend.AppLoop.Replies.{
  IsRequest, process_rejects, process-Accepts, Accepts, responses, answers,
}
use managed_gitops.Backend.WorkspaceLoop.{
  World, Loops, set_loop, Answer, crash, no_answer, answered, answer_of, send_request,
  sync_response_chan, first_response, ended,
}
use managed_gitops.Backend.WorkspaceLoop.Handler.{start_loop}

-- Every entry of the map leads to a goroutine of its own that runs, in a sound state.
pub record IsLive (w : World) : Type 0 where
  pub live :
      (key : String) (c : ℕ)
      → lookup key w.application_map ≡ some c
      → (s : AppLoop.State) × (w.loops c ≡ some s)
  pub sound : (c : ℕ) (s : AppLoop.State) → w.loops c ≡ some s → IsSound s
  pub own :
      (j k : String) (c : ℕ)
      → lookup j w.application_map ≡ some c
      → lookup k w.application_map ≡ some c
      → j ≡ k
  pub started : (key : String) (c : ℕ) → lookup key w.application_map ≡ some c → c < w.next
  pub keys : HasKeys w.application_map

first_response-responses :
    (b : Bool) (es : List Effect)
    → responses es ≡ (sync_response_chan, b) ∷ []
    → first_response es ≡ some b
first_response-responses b [] h = cc
first_response-responses b (respond c d ∷ es) h = ground arith
first_response-responses b (to_deployment_runner ev ∷ es) h = first_response-responses b es h
first_response-responses b (to_sync_runner ev ∷ es) h = first_response-responses b es h
first_response-responses b (start_timer ∷ es) h = first_response-responses b es h

-- The answer of a goroutine in the state s: it rejects the request and ends, or accepts it and goes
-- on in a sound state.
abbrev pub Served : ℕ → Loops → AppLoop.State → Answer → Type 0
Served c loops s a =
    ((work_rejected s ≡ true) × (a ≡ answered false (set_loop c none loops)))
    ⊎ ((work_rejected s ≡ false)
        × ((u : AppLoop.State) × IsSound u × (a ≡ answered true (set_loop c (some u) loops))))

accepted :
    (c : ℕ) (loops : Loops) (o : AppLoop.Outcome)
    → Good o
    → Accepts sync_response_chan o
    → (u : AppLoop.State) × IsSound u
      × (answer_of c loops o ≡ answered true (set_loop c (some u) loops))
unfolding answer_of
accepted c loops panics g h = absurd g
accepted c loops (returns stop u es) g (e, f) =
    (u, g, rw (first_response-responses true es f, answer_of) (rw e refl))

pub send_request-Served :
    (m : RequestMessage) (c : ℕ) (loops : Loops) (s : AppLoop.State)
    → IsRequest m
    → m.response_chan ≡ some sync_response_chan
    → loops c ≡ some s
    → IsSound s
    → Served c loops s (send_request m c loops)
unfolding send_request
send_request-Served m c loops s q r e v = elim (Bool-cases (work_rejected s)) [
  | inl b ↦ inl (b, rw (e, send_request) (rw (process_rejects m s sync_response_chan q r b) refl))
  | inr b ↦
      let (u, i, f) =
        accepted c loops (process m s) (process-IsSound m s v (answers m s q))
          (process-Accepts m s sync_response_chan q r v b) in
      inr (b, (u, i, rw (e, send_request) f))
]

eqb-eq : (a b : ℕ) → eqb a b ≡ true → a ≡ b
eqb-eq a b h = ground arith

set_loop_self : (c : ℕ) (s : Option AppLoop.State) (loops : Loops) → set_loop c s loops c ≡ s
set_loop_self c s loops = ground arith

pub set_loop-other :
    (c d : ℕ) (s : Option AppLoop.State) (loops : Loops) → d ≢ c → set_loop c s loops d ≡ loops d
set_loop-other c d s loops n = ground arith

-- A goroutine that has served a request goes on.
pub kept-IsLive :
    (w : World) (c : ℕ) (s u : AppLoop.State)
    → IsLive w
    → w.loops c ≡ some s
    → IsSound u
    → IsLive (record w { loops = set_loop c (some u) w.loops })
kept-IsLive w c s u v e i = record {
  live = λ k d h. elim (Bool-cases (eqb d c)) [
    | inl b ↦ (u, rw b refl)
    | inr b ↦ let (t, f) = v.live k d h in (t, rw b f)
  ];
  sound = λ d t h. elim (Bool-cases (eqb d c)) [
    | inl b ↦ let f : u ≡ t = ground arith in rw (← f) i
    | inr b ↦ v.sound d t (ground arith)
  ];
  own = v.own;
  started = v.started;
  keys = v.keys;
}

-- A goroutine that has ended is forgotten.
pub dropped-IsLive :
    (w : World) (key : String) (c : ℕ)
    → IsLive w
    → lookup key w.application_map ≡ some c
    → IsLive (record w {
      loops = set_loop c none w.loops;
      application_map = delete key w.application_map;
    })
dropped-IsLive w key c v e = record {
  live = λ k d h.
      let (n, f) = remains k d h in
      let (t, g) = v.live k d f in
      (t, set_loop-other c d none w.loops (λ p. n (v.own key k c e (rw p at f))) ∙ g);
  sound = λ d t h. elim (Bool-cases (eqb d c)) [
    | inl b ↦ absurd (ground arith)
    | inr b ↦ v.sound d t (ground arith)
  ];
  own = λ j k d h i. v.own j k d (remains j d h).1 (remains k d i).1;
  started = λ k d h. v.started k d (remains k d h).1;
  keys = delete-HasKeys key w.application_map v.keys;
}
  where
    remains :
        (k : String) (d : ℕ)
        → lookup k (delete key w.application_map) ≡ some d
        → (key ≢ k) × (lookup k w.application_map ≡ some d)
    remains k d h = ground (arith, lookup-delete key k w.application_map, eq_iff key k)

-- A new goroutine has a channel of its own.
pub start_loop-IsLive :
    (key : String) (w : World)
    → IsLive w
    → lookup key w.application_map ≡ none
    → IsLive (start_loop key w)
unfolding start_loop
start_loop-IsLive key w v e = record {
  live = λ k d h. elim (added k d h) [
    | inl (p, q) ↦ (AppLoop.initial, rw (← q) (set_loop_self w.next (some AppLoop.initial) w.loops))
    | inr (p, q) ↦
        let (t, f) = v.live k d q in
        (
          t,
          set_loop-other w.next d (some AppLoop.initial) w.loops
                (λ r. omega (arith, v.started k d q, r))
              ∙ f,
        )
  ];
  sound = λ d t h. elim (Bool-cases (eqb d w.next)) [
    | inl b ↦ let f : AppLoop.initial ≡ t = ground arith in rw (← f) initial-IsSound
    | inr b ↦ v.sound d t (ground arith)
  ];
  own = λ j k d h i. elim (added j d h) [
    | inl (p, q) ↦ elim (added k d i) [
      | inl (p', q') ↦ sym p ∙ p'
      | inr (p', q') ↦ absurd (omega (arith, v.started k d q', q))
    ]
    | inr (p, q) ↦ elim (added k d i) [
      | inl (p', q') ↦ absurd (omega (arith, v.started j d q, q'))
      | inr (p', q') ↦ v.own j k d q q'
    ]
  ];
  started = λ k d h. elim (added k d h) [
    | inl (p, q) ↦ omega (arith, q)
    | inr (p, q) ↦ omega (arith, v.started k d q)
  ];
  keys = insert-HasKeys key w.next w.application_map v.keys;
}
  where
    added :
        (k : String) (d : ℕ)
        → lookup k (insert key w.next w.application_map) ≡ some d
        → ((key ≡ k) × (w.next ≡ d)) ⊎ ((key ≢ k) × (lookup k w.application_map ≡ some d))
    added k d h = ground (arith, lookup-insert key k w.next w.application_map, eq_iff key k)
