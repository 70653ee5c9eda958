-- ===== src/Store/Postgres/Rows.antt =====
-- The rows of a kind in the Postgres repository against a list of values.
use mlops.Base.{
  ◌≡◌, refl, ◌∙◌, ap, String, Bool, List, [], ◌∷◌, none, some, ◌==◌, inl, inr, Bool-cases, eq_iff,
  eq_refl, map, arith,
}
use mlops.Base.First.{find_first, update_first, find_first_passes}
use mlops.Base.Text.{is_empty}
use mlops.Store.{refused, returned, not_found, Clock, Metadata}
use mlops.Store.Postgres.{
  list, decode_all, Codec, Row, Db, no_faults, is_row, with_event, with_command, topic_for_action,
  set_payload, put, get, write, save, rows_of,
}

module _ {Json A : Type 0} (codec : Codec Json A) (tenant kind : String) (id_of : A → String) where
  abbrev has_key : String → A → Bool
  has_key i value = id_of value == i

  abbrev pub row_for : A → Row Json
  row_for run = record { tenant = tenant; kind = kind; id = id_of run; payload = codec.encode run }

  -- The tenant's rows of runs are those of the list, in its order.
  abbrev pub Represents : Db Json → List A → Type 0
  Represents db runs = rows_of tenant kind db.resources ≡ map row_for runs

  abbrev with_id : String → Row Json → Bool
  with_id run_id row = row.id == run_id

  find-rows :
      (run_id : String) (rows : List (Row Json))
      → find_first (is_row tenant kind run_id) rows
        ≡ find_first (with_id run_id) (rows_of tenant kind rows)
  find-rows run_id [] = refl
  find-rows run_id (x ∷ xs) = ground (arith, find-rows run_id xs)

  find-none :
      (run_id : String) (runs : List A)
      → find_first (has_key run_id) runs ≡ none
      → find_first (with_id run_id) (map row_for runs) ≡ none
  find-none run_id [] h = refl
  find-none run_id (x ∷ xs) h = ground (arith, find-none run_id xs)

  find-some :
      (run_id : String) (runs : List A) {run : A}
      → find_first (has_key run_id) runs ≡ some run
      → find_first (with_id run_id) (map row_for runs) ≡ some (row_for run)
  find-some run_id [] h = cc
  find-some run_id (x ∷ xs) {run} h = elim (Bool-cases (id_of x == run_id)) [
    | inl e ↦ let same : x ≡ run = ground arith in rw e (ap (λ r. some (row_for r)) same)
    | inr e ↦ rw e (find-some run_id xs {run = run} (rw e at h))
  ]

  update-rows :
      (run_id : String) (payload : Json) (rows : List (Row Json))
      → rows_of tenant kind (update_first (is_row tenant kind run_id) (set_payload payload) rows)
        ≡ update_first (with_id run_id) (set_payload payload) (rows_of tenant kind rows)
  update-rows run_id payload [] = refl
  update-rows run_id payload (x ∷ xs) = ground (arith, update-rows run_id payload xs)

  update-runs :
      (run_id : String) (change : A → A) (runs : List A) {run : A}
      → find_first (has_key run_id) runs ≡ some run
      → id_of (change run) ≡ id_of run
      → update_first (with_id run_id) (set_payload (codec.encode (change run))) (map row_for runs)
        ≡ map row_for (update_first (has_key run_id) change runs)
  update-runs run_id change [] h same = cc
  update-runs run_id change (x ∷ xs) {run} h same = elim (Bool-cases (id_of x == run_id)) [
    | inl e ↦
        let here : run ≡ x = ground arith in
        let kept : id_of (change x) ≡ id_of x = rw here at same in rw (e, here, kept) refl
    | inr e ↦ rw e (ap (λ rs. row_for x ∷ rs) (update-runs run_id change xs (rw e at h) same))
  ]

  pub get-none :
      (run_id : String) (db : Db Json) (runs : List A)
      → Represents db runs
      → find_first (has_key run_id) runs ≡ none
      → get codec tenant no_faults kind run_id db ≡ refused not_found
  unfolding get
  get-none run_id db runs r h =
      let missing : find_first (is_row tenant kind run_id) db.resources ≡ none =
        find-rows run_id db.resources
        ∙ ap (find_first (with_id run_id)) r
        ∙ find-none run_id runs h in
      rw (missing, get) refl

  find-row :
      (run_id : String) (db : Db Json) (runs : List A) {run : A}
      → Represents db runs
      → find_first (has_key run_id) runs ≡ some run
      → find_first (is_row tenant kind run_id) db.resources ≡ some (row_for run)
  find-row run_id db runs r h =
      find-rows run_id db.resources ∙ ap (find_first (with_id run_id)) r ∙ find-some run_id runs h

  pub get-some :
      (run_id : String) (db : Db Json) (runs : List A) {run : A}
      → Represents db runs
      → find_first (has_key run_id) runs ≡ some run
      → get codec tenant no_faults kind run_id db ≡ returned run
  unfolding get
  get-some run_id db runs {run} r h =
      rw (find-row run_id db runs r h, get, codec.decode-encode run) refl

  write-fine :
      (clock : Clock) (resource_id : String) (payload : Json) (action actor : String)
      (metadata : Metadata) (db : Db Json)
      → ((write tenant no_faults clock kind resource_id payload action actor metadata db).1 ≡ none)
        × ((write tenant no_faults clock kind resource_id payload action actor metadata
              db).0.resources
            ≡ put
                (record { tenant = tenant; kind = kind; id = resource_id; payload = payload })
                db.resources)
  unfolding write with_event with_command
  write-fine clock resource_id payload action actor metadata db =
      elim (Bool-cases (is_empty (topic_for_action action))) [
        | inl e ↦ rw (e, write) (refl, refl)
        | inr e ↦ rw (e, write) (refl, refl)
      ]

  put-present :
      (i run_id : String) (payload : Json) (rows : List (Row Json)) {found : Row Json}
      → i ≡ run_id
      → find_first (is_row tenant kind run_id) rows ≡ some found
      → put (record { tenant = tenant; kind = kind; id = i; payload = payload }) rows
        ≡ update_first (is_row tenant kind run_id) (set_payload payload) rows
  unfolding put
  put-present i run_id payload rows same f = rw same (rw (f, put) refl)

  put-absent :
      (run : A) (rows : List (Row Json))
      → find_first (is_row tenant kind (id_of run)) rows ≡ none
      → rows_of tenant kind (put (row_for run) rows) ≡ row_for run ∷ rows_of tenant kind rows
  unfolding put
  put-absent run rows f = rw (f, put, eq_refl tenant, eq_refl kind) refl

  -- A save of a changed run does to the rows what the change does to the list.
  pub save-updates :
      (clock : Clock) (action actor : String) (metadata : Metadata) (change : A → A)
      (run_id : String) (db : Db Json) (runs : List A) {run : A}
      → Represents db runs
      → find_first (has_key run_id) runs ≡ some run
      → id_of (change run) ≡ id_of run
      → let out =
          save codec tenant no_faults kind id_of clock action actor metadata (change run) db in
        (out.1 ≡ returned (change run))
        × Represents out.0 (update_first (has_key run_id) change runs)
  unfolding save
  save-updates clock action actor metadata change run_id db runs {run} r h same =
      let here : id_of run ≡ run_id =
        (eq_iff (id_of run) run_id).0 (find_first_passes (has_key run_id) runs h) in
      let wrote =
        write-fine clock (id_of (change run)) (codec.encode (change run)) action actor metadata
          db in
      let there : id_of (change run) ≡ run_id = same ∙ here in
      (
        rw (wrote.0, save) refl,
        ap (rows_of tenant kind) (
              wrote.1
              ∙ put-present (id_of (change run)) run_id (codec.encode (change run)) db.resources
                  there (find-row run_id db runs r h))
            ∙ update-rows run_id (codec.encode (change run)) db.resources
            ∙ ap (update_first (with_id run_id) (set_payload (codec.encode (change run)))) r
            ∙ update-runs run_id change runs h same,
      )

  pub save-inserts :
      (clock : Clock) (action actor : String) (metadata : Metadata) (run : A) (db : Db Json)
      (runs : List A)
      → Represents db runs
      → find_first (has_key (id_of run)) runs ≡ none
      → let out = save codec tenant no_faults kind id_of clock action actor metadata run db in
        (out.1 ≡ returned run) × Represents out.0 (run ∷ runs)
  unfolding save
  save-inserts clock action actor metadata run db runs r h =
      let wrote = write-fine clock (id_of run) (codec.encode run) action actor metadata db in
      (
        rw (wrote.0, save) refl,
        ap (rows_of tenant kind) wrote.1
            ∙ put-absent run db.resources (
                find-rows (id_of run) db.resources
                ∙ ap (find_first (with_id (id_of run))) r
                ∙ find-none (id_of run) runs h)
            ∙ ap (λ rows. row_for run ∷ rows) r,
      )

  decode_all-map : (runs : List A) → decode_all codec (map row_for runs) ≡ runs
  unfolding decode_all
  decode_all-map [] = refl
  decode_all-map (run ∷ runs) =
      rw (codec.decode-encode run, decode_all) (ap (λ rs. run ∷ rs) (decode_all-map runs))

  -- `list` gives the runs that the rows represent.
  pub list-Represents :
      (db : Db Json) (runs : List A)
      → Represents db runs
      → list codec tenant no_faults kind db ≡ runs
  unfolding list
  list-Represents db runs r = ap (decode_all codec) r ∙ decode_all-map runs
