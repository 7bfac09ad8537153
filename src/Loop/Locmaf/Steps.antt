-- ===== src/Loop/Locmaf/Steps.antt =====
-- One round of each loop of rebase_locmaf_timestamps (src/loop_timestamps.cpp).
use moqxr.Common.{
  ℕ, ◌+◌, ◌-◌, ◌%◌, ◌≤◌, ◌<◌, ◌≡◌, ◌≢◌, true, false, Option, some, List, arith, ltb, ◌==◌, length,
}
use moqxr.Common.Bytes.{add64, sub64}
use moqxr.Loop.Varint.{read_locmaf_varint, locmaf_varint}
use moqxr.Loop.Locmaf.{
  Run, answers, Opening, full, open_step, property_step, replace_value, rebase_full, open_object,
  rebase_properties, rebase_locmaf_timestamps,
}

module _ (payload : List ℕ) (again : ℕ → Run Opening) (cursor cursor' : ℕ) where
  pub open_step-full :
      read_locmaf_varint payload cursor ≡ some (2, cursor')
      → open_step payload again cursor ≡ answers (full cursor')
  unfolding open_step
  open_step-full p = rw (open_step, p)

  pub open_step-box :
      (size cursor'' : ℕ)
      → read_locmaf_varint payload cursor ≡ some (1, cursor')
      → read_locmaf_varint payload cursor' ≡ some (size, cursor'')
      → size ≤ length payload - cursor''
      → open_step payload again cursor ≡ again (cursor'' + size)
  unfolding open_step
  open_step-box size cursor'' p q room =
      let fits : ltb (length payload - cursor'') size ≡ false = ground arith in
      rw (open_step, p, q, fits)

module _ (payload : List ℕ) (length_offset begin end delta_ticks : ℕ)
    (again : ℕ → Run (Option (List ℕ))) (cursor id cursor' : ℕ) (more : cursor < end)
    (p : read_locmaf_varint payload cursor ≡ some (id, cursor')) where
  more' : ltb cursor end ≡ true
  more' = ground arith

  pub property_step-bytes :
      (size cursor'' : ℕ)
      → id % 2 ≡ 1
      → read_locmaf_varint payload cursor' ≡ some (size, cursor'')
      → (ltb (sub64 end cursor'') size) ≡ false
      → property_step payload length_offset begin end delta_ticks again cursor
        ≡ again (add64 cursor'' size)
  unfolding property_step
  property_step-bytes size cursor'' odd q room =
      let odd' : (id % 2 == 1) ≡ true = ground arith in rw (property_step, more', p, odd', q, room)

  module _ (value cursor'' : ℕ) (even : id % 2 ≡ 0)
      (q : read_locmaf_varint payload cursor' ≡ some (value, cursor''))
      (room : cursor'' ≤ end) where
    even' : (id % 2 == 1) ≡ false
    even' = ground arith

    room' : ltb end cursor'' ≡ false
    room' = ground arith

    pub property_step-value :
        id ≢ 10
        → property_step payload length_offset begin end delta_ticks again cursor ≡ again cursor''
    unfolding property_step
    property_step-value other =
        let other' : (id == 10) ≡ false = ground (arith, other) in
        rw (property_step, more', p, even', q, room', other')

    pub property_step-base :
        id ≡ 10
        → property_step payload length_offset begin end delta_ticks again cursor
          ≡ answers (
              some (
                replace_value payload length_offset begin end cursor' cursor''
                  (locmaf_varint (add64 value delta_ticks))))
    unfolding property_step
    property_step-base base =
        let base' : (id == 10) ≡ true = ground arith in
        rw (property_step, more', p, even', q, room', base')

pub rebase_full-step :
    (fuel : ℕ) (payload : List ℕ) (delta_ticks cursor properties_length cursor' : ℕ)
    → read_locmaf_varint payload cursor ≡ some (properties_length, cursor')
    → properties_length ≤ length payload - cursor'
    → rebase_full fuel payload delta_ticks cursor
      ≡ rebase_properties fuel payload cursor cursor'
          (cursor' + properties_length)
          delta_ticks
          cursor'
unfolding rebase_full
rebase_full-step fuel payload delta_ticks cursor properties_length cursor' p room =
    let fits : ltb (length payload - cursor') properties_length ≡ false = ground arith in
    rw (rebase_full, p, fits)

pub rebase_locmaf-full :
    (rebase_cmaf : List ℕ → ℕ → Option (List ℕ)) (fuel : ℕ) (payload : List ℕ)
    (delta_ticks cursor : ℕ)
    → open_object fuel payload 0 ≡ answers (full cursor)
    → rebase_locmaf_timestamps rebase_cmaf fuel payload delta_ticks
      ≡ rebase_full fuel payload delta_ticks cursor
unfolding rebase_locmaf_timestamps
rebase_locmaf-full rebase_cmaf fuel payload delta_ticks cursor p = rw (rebase_locmaf_timestamps, p)
