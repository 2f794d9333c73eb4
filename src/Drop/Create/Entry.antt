-- ===== src/Drop/Create/Entry.antt =====
-- The two ways to create a drop: `create_text_drop` and `create_file_drop` of
-- server/app/services/drop.py.
use crypto_campus.Prelude.{
  ℕ, Bool, Option, none, some, [], ◌∷◌, Bytes, Text, length, take, ◌==◌, ltb,
}
use crypto_campus.Crypto.{CryptoEngine, Runtime}
use crypto_campus.Drop.Rows.{text, file, TtlPolicy, create_text, create_file}
use crypto_campus.Drop.State.{
  Action, raise_if, ◌>>◌, invalid_content, content_too_long, payload_too_large, invalid_file,
}
use crypto_campus.Drop.Services.{Collaborators}
use crypto_campus.Drop.Requests.{max_drop_content_size, Fresh, CreateDropResponse}
use crypto_campus.Drop.Create.{create_drop}

module _ (e : CryptoEngine) (rt : Runtime) (sv : Collaborators) where
  pub create_text_drop :
      ℕ
      → Text
      → Option TtlPolicy
      → Bool
      → Option Text
      → Text
      → ℕ
      → Fresh
      → Action CreateDropResponse
  create_text_drop sender_id content ttl_policy pqc_mode access_password idempotency_key now f = do
    raise_if (length content == 0) invalid_content
    raise_if (ltb 1048576 (length content)) content_too_long
    raise_if (ltb max_drop_content_size (length (rt.utf8 content))) payload_too_large
    create_drop e rt sv
        (record {
          sender_id = sender_id;
          plaintext = rt.utf8 content;
          kind = text;
          filename = none;
          ttl_policy = ttl_policy;
          pqc_mode = pqc_mode;
          access_password = access_password;
          idempotency_key = idempotency_key;
          operation = create_text;
          now = now;
        })
        f

  -- `os.path.basename(filename).strip()[:255]`, for a name that is not empty.
  pub safe_filename : Option Text → Option Text
  safe_filename none = none
  safe_filename (some []) = none
  safe_filename (some (c ∷ cs)) = some (take 255 (rt.strip (rt.basename (c ∷ cs))))

  pub create_file_drop :
      ℕ
      → Bytes
      → Option Text
      → Option TtlPolicy
      → Bool
      → Option Text
      → Text
      → ℕ
      → Fresh
      → Action CreateDropResponse
  unfolding safe_filename
  create_file_drop sender_id file_bytes filename ttl_policy pqc_mode access_password idempotency_key
        now f =
      do
        raise_if (length file_bytes == 0) invalid_file
        raise_if (ltb max_drop_content_size (length file_bytes)) payload_too_large
        create_drop e rt sv
            (record {
              sender_id = sender_id;
              plaintext = file_bytes;
              kind = file;
              filename = safe_filename filename;
              ttl_policy = ttl_policy;
              pqc_mode = pqc_mode;
              access_password = access_password;
              idempotency_key = idempotency_key;
              operation = create_file;
              now = now;
            })
            f
