-- ===== src/Integrity/KnownBlockVersions/StateFile/RoundTrip.antt =====
-- A state file that is saved and loaded.
use libcryfs.Common.{
  ℕ, ◌≤◌, ◌≡◌, Bool, true, false, none, some, [], ◌∷◌, ◌++◌, arith, length, if◌then◌else◌, not,
  ◌==◌, append_assoc, append-nil, length-append, drop, drop_all,
}
use libcryfs.Common.Equality.{bytes_eq}
use libcryfs.Common.Result.{ok}
use libcryfs.Common.Bytes.{Data, encode, length-encode}
use libcryfs.Serialization.Serializer
use libcryfs.Serialization.Serializer.{Serializer}
use libcryfs.Serialization.Deserializer
use libcryfs.Serialization.Fields.{images, images-append, fields_size, length-images}
use libcryfs.Integrity.KnownBlockVersions.{key_eq, client_id_for_deleted_block, KnownBlockVersions}
use libcryfs.Integrity.KnownBlockVersions.StateFile.{
  old_header, header, deserialize_known_versions, deserialize_last_update_client_ids,
  state_file_size, save_state_file, load_state_file, load_format, create,
}
use libcryfs.Integrity.KnownBlockVersions.StateFile.{load_old_format}
use libcryfs.Serialization.Fields.Steps.{write_fields-at}
use libcryfs.Integrity.KnownBlockVersions.StateFile.Written.{
  version_fields, client_fields, state_fields, save-state_fields, fields_size-version_fields,
  size-state_fields, IsStorable,
}
use libcryfs.Integrity.KnownBlockVersions.StateFile.Entries.{
  known_versions-at, last_update_client_ids-at,
}

module _ (allocate : ℕ → Data) (allocates : (n : ℕ) → length (allocate n) ≡ n)
    (s : KnownBlockVersions) (v : IsStorable s) where
  save-images : save_state_file allocate s ≡ ok (images (state_fields s))
  unfolding Serializer.new
  save-images =
      let memory = allocate (state_file_size s) in
      let size = size-state_fields s v in
      let given = allocates (state_file_size s) in
      let full : drop (fields_size (state_fields s)) memory ≡ [] =
        drop_all (fields_size (state_fields s)) memory (omega arith) in
      rw (
        save-state_fields,
        write_fields-at [] memory (state_fields s) (omega (arith, v.small)) (omega arith),
        full,
        Serializer.finished-at (images (state_fields s)),
        append-nil,
      )

module _ (s : KnownBlockVersions) where
  pub version_part : Data
  version_part = encode 8 (length s.known_versions) ++ images (version_fields s.known_versions)

  pub client_part : Data
  client_part =
      encode 8 (length s.last_update_client_id) ++ images (client_fields s.last_update_client_id)

  flag : Data
  flag = encode 1 (if s.integrity_violation_on_previous_run then 1 else 0)

  -- A constructed object that has the content of `s`.
  abbrev pub loaded : Bool → KnownBlockVersions
  loaded violation = record s { integrity_violation_on_previous_run = violation; valid = true }

module _ (allocate : ℕ → Data) (allocates : (n : ℕ) → length (allocate n) ≡ n)
    (s : KnownBlockVersions) (v : IsStorable s) where
  -- Both parts, behind a header that is not longer than the present one.
  parts-at :
      (before : Data)
      → length before ≤ 42
      → (deserialize_known_versions (Deserializer.at before ((version_part s) ++ (client_part s)))
          ≡ ok (s.known_versions, Deserializer.at (before ++ (version_part s)) (client_part s)))
        × (deserialize_last_update_client_ids
              (Deserializer.at (before ++ (version_part s)) (client_part s))
            ≡ ok (
              s.last_update_client_id,
              Deserializer.at ((before ++ (version_part s)) ++ (client_part s)) [],
            ))
  unfolding version_part client_part
  parts-at before h =
      let count = encode 8 (length s.known_versions) in
      let size = fields_size-version_fields s.known_versions [] v.versions in
      let put = length-append before (version_part s) in
      let part = length-append count (images (version_fields s.known_versions)) in
      let inner = length-images (version_fields s.known_versions) in
      let whole =
        last_update_client_ids-at (before ++ (version_part s)) [] s.last_update_client_id v.clients
          v.distinct_clients
          (omega (
            arith,
            put,
            part,
            inner,
            (rw append-nil at size),
            length-encode 8 (length s.known_versions),
            v.small,
          )) in
      (
        rw append_assoc (
            known_versions-at before (client_part s) s.known_versions v.versions v.distinct_versions
              (omega (arith, v.small))),
        rw append-nil at whole,
      )

  images-parts :
      images (state_fields s)
      ≡ (header ++ 0 ∷ []) ++ ((flag s) ++ ((version_part s) ++ (client_part s)))
  unfolding flag version_part client_part
  images-parts = rw images-append (simp append_assoc)

  -- A state that can be stored is saved without an error, and the next object with the same client
  -- id starts with exactly the same versions, last clients and violation flag; no file is written
  -- on loading.
  pub create-save_state_file :
      (file : Data) × (save_state_file allocate s ≡ ok file)
      × (create allocate s.my_client_id (some file)
          ≡ ok (loaded s s.integrity_violation_on_previous_run, none))
  unfolding create load_state_file load_format Deserializer.new bytes_eq flag
  create-save_state_file =
      let text = header ++ 0 ∷ [] in
      let rest = (flag s) ++ ((version_part s) ++ (client_part s)) in
      let before = text ++ (flag s) in
      let size = length-append text (flag s) in
      let one = length-encode 1 (if s.integrity_violation_on_previous_run then 1 else 0) in
      let parts = parts-at before (omega (arith, size, one)) in
      let fresh : not (s.my_client_id == client_id_for_deleted_block) ≡ true =
        ground (arith, v.client) in
      (
        images (state_fields s),
        save-images allocate allocates s v,
        rw (
          fresh,
          images-parts,
          Deserializer.read_string-at [] rest header (omega arith),
          Deserializer.read_bool-at text ((version_part s) ++ (client_part s))
              s.integrity_violation_on_previous_run (omega arith),
          parts.0,
          parts.1,
          Deserializer.finished-at ((before ++ (version_part s)) ++ (client_part s)),
        ),
      )

  -- A file in the old format, which has no violation flag, is loaded with the flag cleared, and the
  -- state is written back in the present format at once.
  pub create-old_format :
      (file : Data) × (save_state_file allocate (loaded s false) ≡ ok file)
      × (create allocate s.my_client_id
            (some ((old_header ++ 0 ∷ []) ++ ((version_part s) ++ (client_part s))))
          ≡ ok (loaded s false, some file))
  unfolding create load_state_file load_old_format Deserializer.new bytes_eq
  create-old_format =
      let text = old_header ++ 0 ∷ [] in
      let parts = parts-at text (omega arith) in
      let fresh : not (s.my_client_id == client_id_for_deleted_block) ≡ true =
        ground (arith, v.client) in
      let storable : IsStorable (loaded s false) = record {
        client = v.client;
        versions = v.versions;
        clients = v.clients;
        distinct_versions = v.distinct_versions;
        distinct_clients = v.distinct_clients;
        small = v.small;
      } in
      let saved = save-images allocate allocates (loaded s false) storable in
      (
        images (state_fields (loaded s false)),
        saved,
        rw
            (
              fresh,
              Deserializer.read_string-at [] ((version_part s) ++ (client_part s)) old_header
                  (omega arith),
              parts.0,
              parts.1,
              Deserializer.finished-at ((text ++ (version_part s)) ++ (client_part s)),
            )
            (rw saved),
      )
