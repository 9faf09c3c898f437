-- ===== src/Sse.antt =====
-- src/sse.cpp: server-sent events. Sse.Frame has the text of an event, Sse.Subscriber the bounded
-- queue of one subscriber, Sse.Channel the channel with its subscribers. Each mutex makes what it
-- guards one step. Times are whole seconds of the steady clock, which never goes back, so that no
-- difference of two readings is below 0; an interval below 0 is none, as 0 is.
pub mod Frame
pub mod Subscriber
pub mod Channel
