-- ===== src/Weixin/Durable.antt =====
-- What is left of an update after a restart (extensions/weixin/src/state.ts).
use pipee.Base.{◌≡◌, refl, true, false, Option, none, some, String, arith, ok, err, ◌∙◌, subst}
use pipee.Base.Text.{◌<>◌}
use pipee.Weixin.State.{BridgeState, BridgeStateV2}
use pipee.Weixin.Store.{
  Codec, Disk, Outcome, write_encoded, write_unlocked, migrate, migrated, decoded, read_unlocked,
  update_from, update,
}

-- What the codec writes it reads back.
abbrev pub RoundTrips : Codec → Type 0
RoundTrips codec =
    (s : BridgeState) (t : String) → codec.encode s ≡ some t → codec.decode (t <> "\n") ≡ some s

module _ (codec : Codec) (round_trips : RoundTrips codec) (disk later : Disk) where
  -- What an outcome leaves in the file is what it answers, to a later read.
  abbrev IsDurable : Outcome → Type 0
  IsDurable (err e, file) = Unit
  IsDurable (ok s, file) = later.can_read ≡ true → read_unlocked codec later file ≡ (ok s, file)

  write_encoded-IsDurable :
      (s : BridgeState) (o file : Option String)
      → codec.encode s ≡ o
      → IsDurable (write_encoded codec disk s o file)
  unfolding read_unlocked
  write_encoded-IsDurable s none file e = tt
  write_encoded-IsDurable s (some text) file e = ground (arith, e, round_trips s text e)

  update_from-IsDurable :
      (f : BridgeState → BridgeState) (o : Outcome) → IsDurable (update_from codec disk f o)
  unfolding write_unlocked
  update_from-IsDurable f (err e, file) = tt
  update_from-IsDurable f (ok s, file) =
      write_encoded-IsDurable (f s) (codec.encode (f s)) file refl

  update-IsDurable :
      (f : BridgeState → BridgeState) (file : Option String) → IsDurable (update codec disk f file)
  unfolding update
  update-IsDurable f file = update_from-IsDurable f (read_unlocked codec disk file)

module _ (codec : Codec) (disk : Disk) where
  write_encoded_unreplaced :
      (s : BridgeState) (o file : Option String)
      → disk.can_replace ≡ false
      → (write_encoded codec disk s o file).1 ≡ file
  write_encoded_unreplaced s none file h = refl
  write_encoded_unreplaced s (some text) file h = ground (arith, h)

  migrate_unreplaced :
      (p : Option BridgeStateV2) (file : Option String)
      → disk.can_replace ≡ false
      → (migrate codec disk p file).1 ≡ file
  unfolding write_unlocked
  migrate_unreplaced none file h = refl
  migrate_unreplaced (some p) file h =
      write_encoded_unreplaced (migrated p) (codec.encode (migrated p)) file h

  decoded_unreplaced :
      (o : Option BridgeState) (text : String)
      → disk.can_replace ≡ false
      → (decoded codec disk o text).1 ≡ some text
  decoded_unreplaced none text h = migrate_unreplaced (codec.decode_v2 text) (some text) h
  decoded_unreplaced (some s) text h = refl

  read_unreplaced :
      (file : Option String) → disk.can_replace ≡ false → (read_unlocked codec disk file).1 ≡ file
  unfolding read_unlocked
  read_unreplaced none h = ground arith
  read_unreplaced (some text) h = ground (arith, decoded_unreplaced (codec.decode text) text h)

  update_from_unreplaced :
      (f : BridgeState → BridgeState) (o : Outcome)
      → disk.can_replace ≡ false
      → (update_from codec disk f o).1 ≡ o.1
  unfolding write_unlocked
  update_from_unreplaced f (err e, file) h = refl
  update_from_unreplaced f (ok s, file) h =
      write_encoded_unreplaced (f s) (codec.encode (f s)) file h

update_unreplaced :
    (codec : Codec) (disk : Disk) (f : BridgeState → BridgeState) (file : Option String)
    → (update codec (record disk { can_replace = false }) f file).1 ≡ file
unfolding update
update_unreplaced codec disk f file =
    let stuck = record disk { can_replace = false } in
    update_from_unreplaced codec stuck f (read_unlocked codec stuck file) refl
    ∙ read_unreplaced codec stuck file refl

module _ (codec : Codec) (round_trips : RoundTrips codec) (disk later : Disk) where
  -- If the codec reads back what it writes: the state that a successful update answers is the one
  -- that a later read finds, which leaves the file; and where no write reaches its rename, any
  -- update leaves the file as it was, the migration of an older version included.
  pub update_lasts :
      (f : BridgeState → BridgeState) (file after : Option String) (s : BridgeState)
      → update codec disk f file ≡ (ok s, after)
      → later.can_read ≡ true
      → (read_unlocked codec later after ≡ (ok s, after))
        × ((update codec (record disk { can_replace = false }) f file).1 ≡ file)
  update_lasts f file after s e r = (
    subst (IsDurable codec round_trips disk later) e
        (update-IsDurable codec round_trips disk later f file) r,
    update_unreplaced codec disk f file,
  )
