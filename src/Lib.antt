-- ===== src/Lib.antt =====
-- Verification library of claude-oauth-proxy, a proxy that serves the OpenAI chat API from Anthropic's
-- Messages API with the tokens of a Claude login.
--
-- The program's parts and how they interact: the HTTP adapter (internal/adapters/http) hands a request
-- to a provider (internal/provider), which is the Anthropic client (internal/provider/anthropic). That
-- asks the auth service (internal/auth) for an access token, turns the OpenAI request
-- (internal/openai) into the SDK's parameters, calls the SDK, and turns the answer or the stream of
-- events back. The auth service loads, refreshes and saves the session in a token store
-- (internal/tokens), and logs in over PKCE and OAuth. Errors are internal/core's. The CLI
-- (internal/adapters/cli) runs the commands: it logs in, or serves with a loop that refreshes the
-- session. internal/runtime reads the configuration and builds the program of it, where asked with the
-- service of internal/cost, which adds the cost of tokens to the answers.
--
-- The files:
--   Base and its children: the integers of Go (int64 with its wrap-around), texts as Go strings of
--     valid UTF-8, decimal digits, association lists, and the tests on them.
--   Core: internal/core/error.go (`Error`, `NewError`), and `Result` and `Action`: a call gives a value,
--     an error or a panic, and passes on the state of what it reaches.
--   Json: documents, and how encoding/json decodes into structs (keys without regard to case);
--     Raw is `json.RawMessage`, as it is marshalled.
--   Tokens: internal/tokens/store.go. Types has `TokenSet` and `Expired`, Codec both JSON forms,
--     Contract the `Store` interface with its laws, FileStore the files, Fallback `FallbackStore`.
--     A disk is an association list of files; `Faults` says what the operating system refuses.
--   Auth: internal/auth/service.go. Types has the service's inputs, outputs and interfaces, Operations
--     `PrepareLogin`, `CompleteLogin`, `Status`, `Logout` and `AccessToken`, Pkce `generatePKCE` and
--     `randomBase64URL`, Provider `claudeOAuthProvider` and `postToken`. The state is that of the store
--     and of the provider; the mutex makes a call of `AccessToken` one step.
--   Openai: internal/openai/types.go, and in Content the JSON forms of a message's content.
--   Anthropic: internal/provider/anthropic/service.go. Params is `messageParams`, Response `mapResponse`,
--     Stream the chunks of `CreateChatCompletionStream` (a state and its step `next`), Calls the calls of
--     the SDK with the second try after 401, Service these as a provider, with the variables of each
--     stream that was opened. Stream/Client puts the chunks of a stream together, as clients do, and
--     Stream/Blocks says which events stream a message.
--   Http: internal/adapters/http/handler.go. Handlers are the handlers and the loop that sends a stream,
--     Middleware the routes with the API key, CORS, request identifiers and logging. An `Exchange` is the
--     state of the services with the response written so far and the log. Handler is `NewHandler`,
--     RequestId `generateRequestID`, CleanPath the path that the mux redirects to.
--   Logging: internal/logging. Recorder is the recorder of entries, Json which entries the logger writes.
--     Its own are log entries, and `withOperation` of internal/auth/service.go and of
--     internal/provider/provider.go: a call on the state that it reaches with the log beside it.
--   Provider: internal/provider/provider.go, the interface `Service` with its decorator and `chunkStream`.
--     Auth/Interface is the same of the auth service.
--   Cost: internal/cost. Pricing is `Calculate`, OpenRouter the source of prices with its state (the
--     prices, and whether they have been fetched), Tracking the service around a provider.
--   Runtime: internal/runtime. ByteSize is `ParseByteSize`, with its int64 product, Config the
--     configuration with `ConfigFromEnv` and `Validate`, App what `NewAppWithLogger` gives to the
--     constructors, Services the provider that it makes of them, Logger the settings of the logger.
--   Cli: internal/adapters/cli/run.go. A command works on a `Console`: what was written on stdout and
--     stderr, the log, and the state that the auth service reaches. Code is `normalizeCode`, Flags
--     package flag as far as it is used, Commands the login flow and the commands, Serve `runServe` and
--     `autoRefreshWithInterval`, Run the choice of the command.
--   Buildinfo and Main: internal/buildinfo and cmd/claude-oauth-proxy, the program with its own factory.
--   Examples and its children, in each part: runs on concrete input.
--
-- Parameters: the SDK's client and its stream (a list of events, and what ends it), the HTTP client,
-- the clock, the random reader, SHA-256, the RFC 3339 form of an instant (it parses what it formats),
-- the parsing of a tool's schema, the decoding of a request's and of the price list's JSON, the making
-- of a request identifier where a handler uses it, the type of the floating-point numbers with their
-- operations, time.ParseDuration, filepath.Clean, the code in the query of a URL, reading a line, and
-- the order in which a loop meets the entries of a map (any order that meets them all). While the server runs, what happens is a list of
-- events, ticks of the refresh loop and other changes of the state, and each is one step.
--
-- Fuel: `drain` (Anthropic/Stream/Drain) has the number of calls of `next` that a client makes; one call
-- more than the events that are left, and one to see the end, are enough. The loop that sends a stream
-- (Http/Handlers) has the number of its rounds; one round more than the stream's chunks is enough.
--
-- Not modelled: the JSON that slog writes, the signals and the exit of the process, what the SDK's client
-- does with its headers and time-outs, and cancellation, except that reading a line may be cancelled. %q in an error's text escapes no character.
-- A time is a number of nanoseconds since year 1 without a bound.
pub mod Base
pub mod Core
pub mod Json
pub mod Tokens
pub mod Auth
pub mod Openai
pub mod Anthropic
pub mod Logging
pub mod Runtime
pub mod Provider
pub mod Cost
pub mod Buildinfo
pub mod Cli
pub mod Main
pub mod Http
