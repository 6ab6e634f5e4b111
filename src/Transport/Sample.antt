-- ===== src/Transport/Sample.antt =====
-- A scope, a codec and exchanges for examples.
use st0x_alpaca.Prelude.{ℕ, ◌&&◌, leb, ltb, true, false, [], none, some, refl, ok, err, codes}
use st0x_alpaca.Errors.Sample.{http}
use st0x_alpaca.Transport.{Scope, Exchange, Codec}

abbrev pub codec : Codec
codec = record {
  is_success = λ s. leb 200 s && ltb s 300;
  error_message = λ bytes. none;
  from_utf8_lossy = λ bytes. bytes;
  is_success_lem = λ s. refl;
}

abbrev pub scope : Scope
scope = record {
  traffic = some (record { request_ids = []; last_status = none });
  gate = some (record { closed = false });
  last_answer = none;
}

-- A minted token, an open gate, and an answer of the status without text.
abbrev pub answering : ℕ → Exchange http
answering status = record {
  mint = λ s. (s, none);
  is_open = true;
  answer = ok (record {
    status = status;
    request_id = some (codes "id-1");
    retry_after = none;
    body = ok [];
  });
  left = true;
}

-- A connection that failed.
abbrev pub unconnected : Exchange http
unconnected = record (answering 200) { answer = err 1; left = false }
