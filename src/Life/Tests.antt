-- ===== src/Life/Tests.antt =====
-- The objects of the library made and destroyed at concrete inputs, and the theorems applied there.
use pluto_project.Base.{ℕ, ◌≡◌, refl, true, false, Option, none, some, List, [], ◌∷◌, arith}
use pluto_project.Mp4.{video}
use pluto_project.Life.{World, returned, bound, acquire, release}
use pluto_project.Life.Semaphore.{init_sem_objects, use_sem}
use pluto_project.Life.Holds.{count, Holds, Ok}
use pluto_project.Life.Stream.{
  DataSource, source_filepath, source_fd, create_file, create_outstream_handle_file,
  destory_outstream_handle_file, stream_handle_create, stream_handle_destroy,
}
use pluto_project.Life.Stream.Kept.{given, end_stream, stream_handle_destroy-create}
use pluto_project.Life.Files.{no_handles}
use pluto_project.Life.Mp4.{
  Mp4Blocks, LifeCall, csd, stream, cache_mode, cache_size, header, open_blocks, life,
}
use pluto_project.Life.Mp4.Closed.{life-Left}
use pluto_project.Life.Mp4.Clean.{life-Clean}
use pluto_project.Life.Message.Destroyed.{BlockCall, puts, gets, queue_life, queue_life-Gone}
use pluto_project.Life.Ts.{TsCall, ts_life}
use pluto_project.Life.Ts
use pluto_project.Life.Ts.Closed.{ts_life-Left}

-- One block that is none of the library's.
abbrev before : ℕ → ℕ
before a = count a (1000 ∷ [])

abbrev world : List (Option ℕ) → World
world answers = record { live = 1000 ∷ []; answers = answers }

abbrev plenty : World
plenty = world (
    some 1
    ∷ some 2
    ∷ some 3
    ∷ some 4
    ∷ some 5
    ∷ some 6
    ∷ some 7
    ∷ some 8
    ∷ some 9
    ∷ some 10
    ∷ some 11
    ∷ some 12
    ∷ some 13
    ∷ [])

-- The block is had, but not the file.
abbrev no_file : World
no_file = world (some 1 ∷ none ∷ [])

held_before : (w : World) → w.live ≡ 1000 ∷ [] → Holds [] before w
held_before w e a = rw e (omega arith)

abbrev to_path : DataSource
to_path = record {
  is_local = true;
  source_type = source_filepath;
  io_direction = 1;
  descriptor = 0;
}

-- The caller's descriptor, the number 500, for an output stream.
abbrev to_descriptor : DataSource
to_descriptor = record {
  is_local = true;
  source_type = source_fd;
  io_direction = 1;
  descriptor = 500;
}

abbrev with_descriptor : World
with_descriptor = record { live = 500 ∷ 1000 ∷ []; answers = some 1 ∷ some 2 ∷ [] }

with_descriptor-Holds : Holds (given to_descriptor) before with_descriptor
with_descriptor-Holds a = omega arith

stream_handle_destroy-create_example :
    Ok
      (λ left w'. Holds left before w')
      (bound (stream_handle_create to_descriptor with_descriptor) (end_stream to_descriptor))
stream_handle_destroy-create_example =
    stream_handle_destroy-create to_descriptor before with_descriptor with_descriptor-Holds

-- The descriptor is closed.
descriptor_closed :
    bound (stream_handle_create to_descriptor with_descriptor) (end_stream to_descriptor)
    ≡ returned [] (record { live = 1000 ∷ []; answers = [] })
unfolding stream_handle_create create_file create_outstream_handle_file stream_handle_destroy
    destory_outstream_handle_file end_stream acquire release
descriptor_closed = refl

abbrev calls : List LifeCall
calls = csd video 4 ∷ stream to_path ∷ cache_mode 1 ∷ cache_size 4096 ∷ header ∷ []

abbrev new_driver : Mp4Blocks
new_driver = record {
  context = 1;
  priv_data = 2;
  stream0 = 3;
  stream1 = 4;
  title_info = some 5;
  mov_inf_cache = 6;
  keyframes = some 7;
  csd0 = none;
  csd1 = none;
  files = no_handles;
}

abbrev opened_world : World
opened_world = record {
  live = 7 ∷ 6 ∷ 5 ∷ 4 ∷ 3 ∷ 2 ∷ 1 ∷ 1000 ∷ [];
  answers = some 8 ∷ some 9 ∷ some 10 ∷ some 11 ∷ some 12 ∷ some 13 ∷ [];
}

life-Left_example : Ok (λ lost w'. Holds lost before w') (life (stream to_path ∷ calls) plenty)
life-Left_example =
    life-Left before (stream to_path ∷ calls) plenty (refl, (tt, (refl, (tt, (tt, (tt, tt))))))
      (held_before plenty refl)

life-Clean_example : Ok (λ lost w'. Holds [] before w') (life calls plenty)
unfolding open_blocks acquire
life-Clean_example =
    life-Clean before calls plenty opened_world new_driver (tt, (refl, (tt, (tt, (tt, tt)))))
      (held_before plenty refl) refl (refl, (refl, tt))

abbrev ts_calls : List TsCall
ts_calls = Ts.csd true 4 ∷ Ts.stream to_path ∷ Ts.header ∷ []

ts_life-Left_example : Ok (λ lost w'. Holds lost before w') (ts_life ts_calls plenty)
ts_life-Left_example =
    ts_life-Left before ts_calls plenty (tt, (refl, (tt, tt))) (held_before plenty refl)

-- A message with four bytes, one without data, one for which there is no memory, and a get.
abbrev queue_calls : List BlockCall
queue_calls = puts (some 4) ∷ puts none ∷ gets ∷ puts (some 8) ∷ []

abbrev little : World
little = world (some 1 ∷ some 2 ∷ some 3 ∷ none ∷ [])

queue_life-Gone_example : Ok (λ _ w'. Holds [] before w') (queue_life queue_calls little)
queue_life-Gone_example =
    queue_life-Gone before queue_calls little
      ((λ e. ground (arith, e)), (tt, ((λ e. ground (arith, e)), tt))) (held_before little refl)

-- The mutex of a semaphore cannot be had, and its condition stays.
condition_stays :
    bound (init_sem_objects (world (some 1 ∷ none ∷ []))) use_sem
    ≡ returned false (record { live = 1 ∷ 1000 ∷ []; answers = [] })
unfolding init_sem_objects acquire use_sem
condition_stays = refl
