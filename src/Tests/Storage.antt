-- ===== src/Tests/Storage.antt =====
-- The properties of src/element_buffer.c and src/utilities.c at concrete inputs.
use skylink.Base.{
  ℕ, ◌+◌, ◌<◌, ◌≤◌, ◌≡◌, ◌↔◌, refl, arith, List, [], ◌∷◌, some, true, if◌then◌else◌, ◌==◌, length,
}
use skylink.Base.Int.{pos, negsuc, ◌+ℤ◌, ◌-ℤ◌, ◌*ℤ◌}
use skylink.Base.Result.{ok, err, ebuffer_invalid_index, ebuffer_no_space}
use skylink.Utilities.{positive_modulo, positive_modulo_int32, raise, reduce}
use skylink.Utilities.Range.{positive_modulo_int32-emod}
use skylink.ElementBuffer.{
  BufferElement, ElementBuffer, eb_null_idx, eb_end_idx, store, read, delete, get_n_free,
  get_next_free, next_free_loop, n_free_loop, store_at, store_loop, wrap_element,
  element_requirement_for, create, wipe, wipe_loop,
}
use skylink.ElementBuffer.Count.{count_from}
use skylink.ElementBuffer.Chain.{IsValid, Holds}
use skylink.ElementBuffer.Laws.{
  read-store, read-store_other, delete-Holds, read-delete_other, store_iff,
}
use skylink.ElementBuffer.SelfCheck.{entire_buffer_is_ok}
use skylink.ElementBuffer.SelfCheck.Covered.{IsCovered}
use skylink.ElementBuffer.SelfCheck.Reach.{
  Reach, start, later, storing, deleting, Reach-entire_buffer_is_ok,
}
use skylink.ElementBuffer.Acquire.{get_n_free-Acquired, Acquired}

-- Four elements: a payload of 15 bytes in the first two, one of one byte in the third.
abbrev pub held : ℕ → BufferElement
held i =
    if i == 0
    then record {
      previous = eb_end_idx;
      next = 1;
      bytes = 15 ∷ 0 ∷ 1 ∷ 2 ∷ 3 ∷ 4 ∷ 5 ∷ 6 ∷ 7 ∷ 8 ∷ 9 ∷ 10 ∷ [];
    }
    else if i == 1
    then record {
      previous = 0;
      next = eb_end_idx;
      bytes = 11 ∷ 12 ∷ 13 ∷ 14 ∷ 15 ∷ 0 ∷ 0 ∷ 0 ∷ 0 ∷ 0 ∷ 0 ∷ 0 ∷ [];
    }
    else if i == 2
    then record {
      previous = eb_end_idx;
      next = eb_end_idx;
      bytes = 1 ∷ 0 ∷ 42 ∷ 0 ∷ 0 ∷ 0 ∷ 0 ∷ 0 ∷ 0 ∷ 0 ∷ 0 ∷ 0 ∷ [];
    }
    else record {
      previous = eb_null_idx;
      next = eb_null_idx;
      bytes = 0 ∷ 0 ∷ 0 ∷ 0 ∷ 0 ∷ 0 ∷ 0 ∷ 0 ∷ 0 ∷ 0 ∷ 0 ∷ 0 ∷ [];
    }

abbrev pub buffer : ElementBuffer
buffer = record {
  pool = held;
  last_write_index = 2;
  free_elements = 1;
  element_count = 4;
  element_size = 16;
  element_usable_space = 12;
}

abbrev pub long : List ℕ
long = 1 ∷ 2 ∷ 3 ∷ 4 ∷ 5 ∷ 6 ∷ 7 ∷ 8 ∷ 9 ∷ 10 ∷ 11 ∷ 12 ∷ 13 ∷ 14 ∷ 15 ∷ []

abbrev pub short : List ℕ
short = 42 ∷ []

abbrev pub payload : List ℕ
payload = 7 ∷ 8 ∷ 9 ∷ []

pub buffer-IsValid : IsValid buffer
unfolding count_from
buffer-IsValid = record {
  usable = omega arith;
  nonempty = omega arith;
  bounded = omega arith;
  last = omega arith;
  counted = refl;
}

pub long-Holds : Holds buffer 0 (1 ∷ []) long
unfolding element_requirement_for
long-Holds = record {
  linked = (omega arith, refl, refl, (omega arith, refl, refl, tt));
  distinct = (refl, (refl, tt));
  required = refl;
  stored = refl;
  first = refl;
  rest = (refl, refl);
}

pub short-Holds : Holds buffer 2 [] short
unfolding element_requirement_for
short-Holds = record {
  linked = (omega arith, refl, refl, tt);
  distinct = (refl, tt);
  required = refl;
  stored = refl;
  first = refl;
  rest = refl;
}

room : element_requirement_for buffer 3 ≤ 1
unfolding element_requirement_for
room = omega arith

read-store_example :
    (idx : ℕ) × (b' : ElementBuffer) × (store buffer payload 3 ≡ (ok idx, b'))
    × IsValid b'
    × (read b' idx 100 ≡ ok payload)
read-store_example =
    read-store buffer payload 100 buffer-IsValid (omega arith) (omega (arith, room)) room
      (omega arith)

pub stored_at : (store buffer payload 3).0 ≡ ok 3
unfolding store element_requirement_for get_n_free get_next_free next_free_loop n_free_loop store_at
    store_loop wrap_element positive_modulo ◌+ℤ◌ ◌-ℤ◌ ◌*ℤ◌ raise reduce
stored_at = refl

read-store_other_example :
    (idx : ℕ) × (b' : ElementBuffer) × (store buffer payload 3 ≡ (ok idx, b'))
    × Holds b' 0 (1 ∷ []) long
    × (read b' 0 100 ≡ ok long)
read-store_other_example =
    read-store_other buffer payload 0 (1 ∷ []) long 100 buffer-IsValid (omega arith)
      (omega (arith, room)) room long-Holds (omega arith)

delete-Holds_example :
    (b' : ElementBuffer) × (delete buffer 0 ≡ (ok tt, b'))
    × IsValid b'
    × (b'.free_elements ≡ 1 + element_requirement_for buffer 15)
    × ((max_len : ℕ) → read b' 0 max_len ≡ err ebuffer_invalid_index)
delete-Holds_example = delete-Holds buffer 0 (1 ∷ []) long buffer-IsValid long-Holds

read-delete_other_example :
    (b' : ElementBuffer) × (delete buffer 0 ≡ (ok tt, b'))
    × Holds b' 2 [] short
    × (read b' 2 100 ≡ ok short)
read-delete_other_example =
    read-delete_other buffer 0 (1 ∷ []) long 2 [] short 100 buffer-IsValid long-Holds short-Holds
      (λ y h. ground arith) (omega arith)

store_iff_example :
    (store buffer long 15 ≡ (err ebuffer_no_space, buffer))
    ↔ (1 < element_requirement_for buffer 15)
unfolding element_requirement_for
store_iff_example = store_iff buffer long buffer-IsValid (omega arith) (omega arith)

get_n_free-Acquired_example :
    (idx : ℕ) × (idxs : List ℕ) × (get_n_free buffer 1 2 ≡ some (idx ∷ idxs))
    × (length idxs + 1 ≡ 1)
    × Acquired buffer (idx ∷ idxs)
unfolding count_from
get_n_free-Acquired_example =
    get_n_free-Acquired buffer 1 2 (omega arith) (omega arith) (omega arith)

positive_modulo_int32-emod_example :
    (positive_modulo_int32 (negsuc 4) (pos 8) ≡ positive_modulo (negsuc 4) (pos 8))
    × (positive_modulo_int32 (negsuc 4) (pos 8) ≡ pos 3)
positive_modulo_int32-emod_example =
    positive_modulo_int32-emod (negsuc 4) 8 (omega arith) (omega arith) (omega arith)

-- A buffer of four elements that is created, takes a payload and loses it again.
abbrev first_buffer : ElementBuffer
first_buffer = record {
  pool = wipe_loop 4 0 held;
  last_write_index = 0;
  free_elements = 4;
  element_count = 4;
  element_size = 16;
  element_usable_space = 12;
}

abbrev after_store : ElementBuffer
after_store = (store first_buffer payload 3).1

abbrev after_delete : ElementBuffer
after_delete = (delete after_store 0).1

first_is_created : create held 12 4 ≡ some first_buffer
unfolding create wipe
first_is_created = refl

run_of_both : Reach first_buffer after_delete
unfolding element_requirement_for store get_n_free get_next_free next_free_loop n_free_loop store_at
    store_loop wrap_element positive_modulo ◌+ℤ◌ ◌-ℤ◌ ◌*ℤ◌ raise reduce
run_of_both =
    later (later start (storing payload (omega arith) (omega arith))) (deleting 0 (omega arith))

Reach-entire_buffer_is_ok_example :
    IsValid after_delete × IsCovered after_delete × (entire_buffer_is_ok after_delete ≡ some true)
Reach-entire_buffer_is_ok_example =
    Reach-entire_buffer_is_ok held 12 4 (omega arith) (omega arith) first_is_created run_of_both
