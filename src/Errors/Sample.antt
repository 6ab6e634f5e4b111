-- ===== src/Errors/Sample.antt =====
-- An HTTP crate for examples. Errors are numbers: 0 is a builder error, 1 a failed connection, 2 a
-- decoding error.
use st0x_alpaca.Prelude.{ℕ, refl, none, some, ◌==◌, ◌&&◌, leb, ltb, if◌then◌else◌}
use st0x_alpaca.Errors.Http.{Http}

abbrev pub http : Http
http = record {
  Error = ℕ;
  is_builder = λ e. e == 0;
  is_connect = λ e. e == 1;
  is_decode = λ e. e == 2;
  is_client_error = λ s. leb 400 s && ltb s 500;
  is_redirection = λ s. leb 300 s && ltb s 400;
  from_u16 = λ s. if leb 100 s && ltb s 1000 then some s else none;
  client_error_lem = λ s. refl;
  redirection_lem = λ s. refl;
  from_u16_lem = λ s. refl;
}
