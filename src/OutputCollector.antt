-- ===== src/OutputCollector.antt =====
-- output-collector/main.go: the server to which the default outputs post.
-- net/http, encoding/json and the printing of an error are the parameters.
use cnsbench.Prelude.{ℕ, String, List, [], ◌∷◌, ◌++◌, Assoc}
use cnsbench.Exec.{Error, Try, returned, failed}
use cnsbench.Api.{Time, unix}

-- The struct Output.
pub record CollectedOutput : Type 0 where
  pub timestamp : ℕ
  pub remote_addr : String
  pub endpoint : String
  pub params : Assoc String (List String)
  pub content : String

-- What the handler reads of a request. Reading the body may fail.
pub record Request : Type 0 where
  pub remote_addr : String
  pub path : String
  pub query : Assoc String (List String)
  pub body : Try String

module _ (marshal : CollectedOutput → Try String) (show_error : Error → String) where
  -- The data, and what is printed where they cannot be read.
  unfoldable pub read_body : Try String → String × List String
  read_body (failed e) = ("", show_error e ∷ [])
  read_body (returned content) = (content, [])

  unfoldable pub output_line : Try String → String
  output_line (failed e) = show_error e
  output_line (returned j) = j

  -- handler: the lines that it prints.
  unfoldable pub handler : Time → Request → List String
  unfolding read_body output_line
  handler now req =
      let (content, printed) = read_body req.body in
      printed
      ++ output_line (
          marshal (record {
            timestamp = unix now;
            remote_addr = req.remote_addr;
            endpoint = req.path;
            params = req.query;
            content = content;
          }))
        ∷ []
