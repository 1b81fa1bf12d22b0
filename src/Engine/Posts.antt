-- ===== src/Engine/Posts.antt =====
-- The commands that a user posts by `post` and `post_to_master` of src/node.rs himself, and that make
-- no connection and no listener.
use message_io.Prelude.{ℕ, ◌≡◌, refl}
use message_io.Network.Messages.{
  WakerCommand, greet, accept_register_remote, connect_register_remote, listen, connect, send,
  send_sync, close, is_ready, stop,
}
use message_io.Engine.Threads.{Action, call_post, call_post_to_master}
use message_io.Engine.Routed.{ForMaster, ForWorker}
use message_io.Engine.Counted.{Suits}
use message_io.Engine.Waiting.{weight}

module _ {K A C : Type 0} where
  -- The command neither registers nor connects nor listens.
  abbrev pub MakesNoResource : WakerCommand K A C → Type 0
  MakesNoResource (accept_register_remote _ _ _ _) = ⊥
  MakesNoResource (connect_register_remote _ _ _ _ _) = ⊥
  MakesNoResource (listen _ _ _ _) = ⊥
  MakesNoResource (connect _ _ _ _) = ⊥
  MakesNoResource _ = Unit

  -- If the action is a post of the user himself, then of such a command.
  abbrev pub PostsNoResource : Action K A C → Type 0
  PostsNoResource (call_post _ c) = MakesNoResource c
  PostsNoResource (call_post_to_master c) = MakesNoResource c
  PostsNoResource _ = Unit

  -- What is asked of a command before it is posted.
  pub record IsHarmless (Fits : ℕ → WakerCommand K A C → Type 0) (c : WakerCommand K A C)
      : Type 0 where
    pub for_worker : (n i : ℕ) → ForWorker n i c
    pub for_master : ForMaster c
    pub suits : Suits Fits c
    pub light : (k : ℕ) → weight k c ≡ 0

  pub MakesNoResource-IsHarmless :
      (Fits : ℕ → WakerCommand K A C → Type 0) (c : WakerCommand K A C)
      → MakesNoResource c
      → IsHarmless Fits c
  MakesNoResource-IsHarmless Fits (accept_register_remote _ _ _ _) h = elim h [ ]
  MakesNoResource-IsHarmless Fits (connect_register_remote _ _ _ _ _) h = elim h [ ]
  MakesNoResource-IsHarmless Fits (listen _ _ _ _) h = elim h [ ]
  MakesNoResource-IsHarmless Fits (connect _ _ _ _) h = elim h [ ]
  MakesNoResource-IsHarmless Fits (greet _) h = record {
    for_worker = λ n i. tt;
    for_master = tt;
    suits = tt;
    light = λ k. refl;
  }
  MakesNoResource-IsHarmless Fits (send _ _) h = record {
    for_worker = λ n i. tt;
    for_master = tt;
    suits = tt;
    light = λ k. refl;
  }
  MakesNoResource-IsHarmless Fits (send_sync _ _ _) h = record {
    for_worker = λ n i. tt;
    for_master = tt;
    suits = tt;
    light = λ k. refl;
  }
  MakesNoResource-IsHarmless Fits (close _) h = record {
    for_worker = λ n i. tt;
    for_master = tt;
    suits = tt;
    light = λ k. refl;
  }
  MakesNoResource-IsHarmless Fits (is_ready _ _) h = record {
    for_worker = λ n i. tt;
    for_master = tt;
    suits = tt;
    light = λ k. refl;
  }
  MakesNoResource-IsHarmless Fits stop h = record {
    for_worker = λ n i. tt;
    for_master = tt;
    suits = tt;
    light = λ k. refl;
  }
